-- ===== src/Base/TreeMap/Laws.antt =====
-- Lookups in a map after a change, and the keys of a map.
use lm_resizer.Base.{
  ◌≡◌, refl, inl, inr, Bool, false, none, [], ◌∷◌, ℕ, suc, zero, take, All, Bytes, bytes_eq,
  Bool-cases, arith,
}
use lm_resizer.Base.Sort.{insert_sorted, sort_by}
use lm_resizer.Base.TreeMap.{TreeMap, bytes_lt, update, insert, get}

pub bytes_eq_sym : (s t : Bytes) → bytes_eq s t ≡ bytes_eq t s
bytes_eq_sym [] [] = refl
bytes_eq_sym [] (d ∷ t) = refl
bytes_eq_sym (c ∷ s) [] = refl
bytes_eq_sym (c ∷ s) (d ∷ t) = ground (arith, bytes_eq_sym s t)

module _ {V : Type 0} where
  -- No key occurs twice.
  abbrev pub Distinct : TreeMap V → Type 0
  Distinct [] = Unit {0}
  Distinct ((k, v) ∷ m) = (get k m ≡ none) × Distinct m

  pub All-insert_new :
      (P : Bytes × V → Type 0) (k : Bytes) (v : V) (m : TreeMap V)
      → get k m ≡ none
      → P (k, v)
      → All P m
      → All P (insert k v m)
  unfolding insert update get
  All-insert_new P k v [] absent new h = (new, tt)
  All-insert_new P k v ((j, w) ∷ m) absent new (hw, h) = elim (Bool-cases (bytes_eq k j)) [
    | inl same ↦ absurd (ground arith)
    | inr other ↦ rw (other) (elim (Bool-cases (bytes_lt k j)) [
      | inl before ↦ rw (before) (new, (hw, h))
      | inr after ↦ rw (after) (hw, All-insert_new P k v m (ground arith) new h)
    ])
  ]

  get_none-insert_sorted :
      (lt : Bytes × V → Bytes × V → Bool) (k : Bytes) (e : Bytes × V) (m : TreeMap V)
      → get k (e ∷ m) ≡ none
      → get k (insert_sorted lt e m) ≡ none
  unfolding get insert_sorted
  get_none-insert_sorted lt k e [] h = h
  get_none-insert_sorted lt k (i, w) ((j, v) ∷ m) h =
      ground (arith, get_none-insert_sorted lt k (i, w) m)

  Distinct-insert_sorted :
      (lt : Bytes × V → Bytes × V → Bool) (k : Bytes) (v : V) (m : TreeMap V)
      → get k m ≡ none
      → Distinct m
      → Distinct (insert_sorted lt (k, v) m)
  unfolding get insert_sorted
  Distinct-insert_sorted lt k v [] new h = (refl, tt)
  Distinct-insert_sorted lt k v ((j, w) ∷ m) new (hj, h) = elim (Bool-cases (lt (j, w) (k, v))) [
    | inl after ↦ rw (after) (
      get_none-insert_sorted lt j (k, v) m (ground (arith, bytes_eq_sym j k)),
      Distinct-insert_sorted lt k v m (ground arith) h,
    )
    | inr before ↦ rw (before) (new, (hj, h))
  ]

  get_none-sort_by :
      (lt : Bytes × V → Bytes × V → Bool) (k : Bytes) (m : TreeMap V)
      → get k m ≡ none
      → get k (sort_by lt m) ≡ none
  unfolding get sort_by
  get_none-sort_by lt k [] h = refl
  get_none-sort_by lt k ((j, v) ∷ m) h =
      get_none-insert_sorted lt k (j, v) (sort_by lt m) (ground (arith, get_none-sort_by lt k m))

  pub Distinct-sort_by :
      (lt : Bytes × V → Bytes × V → Bool) (m : TreeMap V) → Distinct m → Distinct (sort_by lt m)
  unfolding sort_by
  Distinct-sort_by lt [] h = tt
  Distinct-sort_by lt ((k, v) ∷ m) (hk, h) =
      Distinct-insert_sorted lt k v (sort_by lt m) (get_none-sort_by lt k m hk)
        (Distinct-sort_by lt m h)

  get_none-take : (n : ℕ) (k : Bytes) (m : TreeMap V) → get k m ≡ none → get k (take n m) ≡ none
  unfolding get
  get_none-take zero k m h = refl
  get_none-take (suc n) k [] h = refl
  get_none-take (suc n) k ((j, v) ∷ m) h = ground (arith, get_none-take n k m)

  pub Distinct-take : (n : ℕ) (m : TreeMap V) → Distinct m → Distinct (take n m)
  Distinct-take zero m h = tt
  Distinct-take (suc n) [] h = tt
  Distinct-take (suc n) ((k, v) ∷ m) (hk, h) = (get_none-take n k m hk, Distinct-take n m h)

  pub get-insert_ne :
      (k j : Bytes) (v : V) (m : TreeMap V)
      → bytes_eq j k ≡ false
      → get j m ≡ none
      → get j (insert k v m) ≡ none
  unfolding insert update get
  get-insert_ne k j v [] ne h = ground arith
  get-insert_ne k j v ((i, w) ∷ m) ne h = elim (Bool-cases (bytes_eq k i)) [
    | inl same ↦ rw (same) (ground arith)
    | inr other ↦ rw (other) (ground (arith, get-insert_ne k j v m))
  ]
