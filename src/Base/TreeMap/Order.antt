-- ===== src/Base/TreeMap/Order.antt =====
-- The keys of a map ascend, and so no key occurs twice.
use lm_resizer.Base.{
  ◌≡◌, refl, inl, inr, true, false, Option, none, [], ◌∷◌, All, All-map, Bytes, bytes_eq,
  Bool-cases, arith,
}
use lm_resizer.Base.TreeMap.{TreeMap, bytes_lt, update, get}
use lm_resizer.Base.TreeMap.Laws.{Distinct}

lt_of_not : (s t : Bytes) → bytes_eq s t ≡ false → bytes_lt s t ≡ false → bytes_lt t s ≡ true
lt_of_not [] [] e l = cc
lt_of_not [] (d ∷ t) e l = cc
lt_of_not (c ∷ s) [] e l = refl
lt_of_not (c ∷ s) (d ∷ t) e l = ground (arith, lt_of_not s t)

lt_trans : (s t u : Bytes) → bytes_lt s t ≡ true → bytes_lt t u ≡ true → bytes_lt s u ≡ true
lt_trans s t [] h g = cc
lt_trans s [] (e ∷ u) h g = cc
lt_trans [] (d ∷ t) (e ∷ u) h g = refl
lt_trans (c ∷ s) (d ∷ t) (e ∷ u) h g = ground (arith, lt_trans s t u)

ne_of_lt : (s t : Bytes) → bytes_lt s t ≡ true → bytes_eq s t ≡ false
ne_of_lt s [] h = cc
ne_of_lt [] (d ∷ t) h = refl
ne_of_lt (c ∷ s) (d ∷ t) h = ground (arith, ne_of_lt s t)

module _ {V : Type 0} where
  abbrev Above : Bytes → Bytes × V → Type 0
  Above k e = bytes_lt k e.0 ≡ true

  abbrev pub IsSorted : TreeMap V → Type 0
  IsSorted [] = Unit {0}
  IsSorted ((k, v) ∷ m) = All (Above k) m × IsSorted m

  Above-update :
      (i k : Bytes) (f : Option V → V) (m : TreeMap V)
      → bytes_lt i k ≡ true
      → All (Above i) m
      → All (Above i) (update k f m)
  unfolding update
  Above-update i k f [] hk h = (hk, tt)
  Above-update i k f ((j, v) ∷ m) hk (hj, h) = elim (Bool-cases (bytes_eq k j)) [
    | inl same ↦ rw (same) (hj, h)
    | inr other ↦ rw (other) (elim (Bool-cases (bytes_lt k j)) [
      | inl before ↦ rw (before) (hk, (hj, h))
      | inr after ↦ rw (after) (hj, Above-update i k f m hk h)
    ])
  ]

  pub update-IsSorted :
      (k : Bytes) (f : Option V → V) (m : TreeMap V) → IsSorted m → IsSorted (update k f m)
  unfolding update
  update-IsSorted k f [] h = (tt, tt)
  update-IsSorted k f ((j, v) ∷ m) (above, h) = elim (Bool-cases (bytes_eq k j)) [
    | inl same ↦ rw (same) (above, h)
    | inr other ↦ rw (other) (elim (Bool-cases (bytes_lt k j)) [
      | inl before ↦
          rw (before) ((before, All-map m (λ e g. lt_trans k j e.0 before g) above), (above, h))
      | inr after ↦
          rw (after)
            (Above-update j k f m (lt_of_not k j other after) above, update-IsSorted k f m h)
    ])
  ]

  get_none-Above : (k : Bytes) (m : TreeMap V) → All (Above k) m → get k m ≡ none
  unfolding get
  get_none-Above k [] h = refl
  get_none-Above k ((j, v) ∷ m) (hj, h) = rw (ne_of_lt k j hj) (get_none-Above k m h)

  pub IsSorted-Distinct : (m : TreeMap V) → IsSorted m → Distinct m
  IsSorted-Distinct [] h = tt
  IsSorted-Distinct ((k, v) ∷ m) (above, h) = (get_none-Above k m above, IsSorted-Distinct m h)
