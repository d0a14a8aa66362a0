-- ===== src/CacheControl/Floor.antt =====
-- The frozen count is the least floor over the marked messages.
use lm_resizer.Base.{
  ℕ, zero, suc, ◌+◌, ◌≤◌, ◌<◌, max, ◌≡◌, ◌⊎◌, inl, inr, refl, Bool, true, none, some, List, [], ◌∷◌,
  arith, any, get_elem?, is_some, if◌then◌else◌, unwrap_or, Bool-cases, leb,
}
use lm_resizer.Json.{JsonView, get_array}
use lm_resizer.CacheControl.{
  MessageWalk, floor, bump, content_blocks, walk_block, walk_blocks, walk_messages_from,
  walk_messages, compute_frozen_count, new,
}

module _ {V : Type 0} (j : JsonView V) where
  abbrev is_marked : V → Bool
  is_marked block = is_some (j.get block "cache_control")

  -- A message that holds a block with a marker.
  abbrev pub has_marker : V → Bool
  has_marker message = any is_marked (content_blocks j message)

  abbrev pub messages_of : V → List V
  messages_of parsed = unwrap_or (get_array j parsed "messages") []

  highest-walk_blocks :
      (i : ℕ) (w : MessageWalk) (bs : List V)
      → (walk_blocks j i w bs).highest ≡ (if any is_marked bs then bump i w.highest else w.highest)
  unfolding walk_blocks walk_block
  highest-walk_blocks i w [] = refl
  highest-walk_blocks i w (b ∷ bs) = ground (arith, highest-walk_blocks i (walk_block j i w b) bs)

  floor-walk_blocks :
      (i : ℕ) (w : MessageWalk) (bs : List V)
      → floor (walk_blocks j i w bs).highest
        ≡ (if any is_marked bs then max (floor w.highest) (i + 1) else floor w.highest)
  floor-walk_blocks i w bs = ground (arith, highest-walk_blocks i w bs)

  floor-le-walk :
      (i : ℕ) (w : MessageWalk) (ms : List V)
      → floor w.highest ≤ floor (walk_messages_from j i w ms).highest
  unfolding walk_messages_from
  floor-le-walk i w [] = omega arith
  floor-le-walk i w (m ∷ ms) =
      let w' = walk_blocks j i w (content_blocks j m) in
      ground (arith, floor-le-walk (suc i) w' ms, floor-walk_blocks i w (content_blocks j m))

  marked-lt-floor :
      (i k : ℕ) (w : MessageWalk) (ms : List V) (m : V)
      → get_elem? ms k ≡ some m
      → has_marker m ≡ true
      → i + k < floor (walk_messages_from j i w ms).highest
  unfolding walk_messages_from
  marked-lt-floor i k w [] m at mark = cc
  marked-lt-floor i zero w (m ∷ ms) n at mark =
      let w' = walk_blocks j i w (content_blocks j m) in
      ground (arith, floor-le-walk (suc i) w' ms, floor-walk_blocks i w (content_blocks j m))
  marked-lt-floor i (suc k) w (m ∷ ms) n at mark =
      let w' = walk_blocks j i w (content_blocks j m) in
      omega (arith, marked-lt-floor (suc i) k w' ms n at mark)

  -- The floor is that of the state before, or stands one past a marked message.
  floor-witness :
      (i : ℕ) (w : MessageWalk) (ms : List V)
      → (floor (walk_messages_from j i w ms).highest ≡ floor w.highest)
        ⊎ ((k : ℕ) × (m : V) × (get_elem? ms k ≡ some m)
            × (has_marker m ≡ true)
            × (floor (walk_messages_from j i w ms).highest ≡ i + k + 1))
  unfolding walk_messages_from
  floor-witness i w [] = inl refl
  floor-witness i w (m ∷ ms) =
      let w' = walk_blocks j i w (content_blocks j m) in
      elim (floor-witness (suc i) w' ms) [
        | inr (k, n, at, mark, e) ↦ inr (suc k, n, at, mark, omega arith)
        | inl same ↦ elim (Bool-cases (has_marker m)) [
          | inl mark ↦
              let e = floor-walk_blocks i w (content_blocks j m) in
              elim (Bool-cases (leb (i + 1) (floor w.highest))) [
                | inl below ↦ inl (ground (arith, same, mark, below, e))
                | inr above ↦ inr (zero, m, refl, mark, ground (arith, same, mark, above, e))
              ]
          | inr plain ↦
              inl (ground (arith, same, plain, floor-walk_blocks i w (content_blocks j m)))
        ]
      ]

  -- A message that holds a `cache_control` marker in its content blocks lies below the frozen count.
  pub compute_frozen_count_covers :
      (parsed : V) (k : ℕ) (m : V)
      → get_elem? (messages_of parsed) k ≡ some m
      → has_marker m ≡ true
      → k < (compute_frozen_count j parsed).0
  unfolding compute_frozen_count walk_messages
  compute_frozen_count_covers parsed k m at mark =
      let w : MessageWalk = record { ttl_walk = new; highest = none } in
      omega (arith, marked-lt-floor 0 k w (messages_of parsed) m at mark)

  -- The frozen count is 0, or stands one past a message that holds a marker.
  pub compute_frozen_count_tight :
      (parsed : V)
      → ((compute_frozen_count j parsed).0 ≡ 0)
        ⊎ ((k : ℕ) × (m : V) × (get_elem? (messages_of parsed) k ≡ some m)
            × (has_marker m ≡ true)
            × ((compute_frozen_count j parsed).0 ≡ k + 1))
  unfolding compute_frozen_count walk_messages
  compute_frozen_count_tight parsed =
      elim (floor-witness 0 (record { ttl_walk = new; highest = none }) (messages_of parsed)) [
        | inl zero_floor ↦ inl zero_floor
        | inr (k, m, at, mark, e) ↦ inr (k, m, at, mark, omega (arith, e))
      ]
