-- ===== src/LiveZone/Run/Latest.antt =====
-- live_zone.rs: the latest message of a user is a message from the floor on.
use lm_resizer.Base.{
  ℕ, zero, suc, ◌+◌, ◌≤◌, ◌<◌, min, ◌≡◌, refl, inl, inr, some, List, [], ◌∷◌, length, get_elem?,
  Option-cases, arith,
}
use lm_resizer.Base.OnSome.{OnSome, OnSome-each}
use lm_resizer.Json.{JsonView}
use lm_resizer.LiveZone.Run.{find_from, find_latest_user_message_index}

module _ {V : Type 0} (j : JsonView V) where
  find_from_bounds :
      (start offset : ℕ) (messages : List V) (i : ℕ)
      → find_from j start offset messages ≡ some i
      → (start ≤ i) × (offset ≤ i) × (i < offset + length messages)
  unfolding find_from
  find_from_bounds start offset [] i h = ground (arith, h)
  find_from_bounds start offset (m ∷ messages) i h =
      elim (Option-cases (find_from j start (suc offset) messages)) [
        | inl e ↦ ground (arith, h, e)
        | inr (k, e) ↦
            let (a, b, c) = find_from_bounds start (suc offset) messages k e in
            ground (arith, h, e, a, b, c)
      ]

  pub find_latest_bounds :
      (messages : List V) (floor : ℕ)
      → OnSome
          (λ target. (floor ≤ target) × (target < length messages))
          (find_latest_user_message_index j messages floor)
  unfolding find_latest_user_message_index
  find_latest_bounds messages floor =
      OnSome-each (λ target. (floor ≤ target) × (target < length messages))
        (find_from j (min floor (length messages)) 0 messages)
        (λ target e.
          let (a, b, c) = find_from_bounds (min floor (length messages)) 0 messages target e in
          omega (arith, a, c))

pub get_elem?_inside :
    {A : Type 0} (xs : List A) (i : ℕ) → i < length xs → (x : A) × (get_elem? xs i ≡ some x)
get_elem?_inside [] i h = absurd (omega (arith, h))
get_elem?_inside (x ∷ xs) zero h = (x, refl)
get_elem?_inside (x ∷ xs) (suc i) h = get_elem?_inside xs i (omega (arith, h))
