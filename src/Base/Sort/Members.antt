-- ===== src/Base/Sort/Members.antt =====
-- The elements of a sorted list.
use mathlib.Core.Logic.{inl, inr}
use mathlib.Core.Bool.{Bool, true, false}
use mathlib.Core.List.{List, [], ◌∷◌}
use lm_resizer.Base.Tests.{if◌then◌else◌}
use lm_resizer.Base.Lists.{In, All}
use lm_resizer.Base.Sort.{insert_sorted, sort_by}

module _ {A : Type 0} (before : A → A → Bool) where
  In-insert_sorted : (m x : A) (ys : List A) → In m (insert_sorted before x ys) → In m (x ∷ ys)
  unfolding insert_sorted
  In-insert_sorted m x [] h = h
  In-insert_sorted m x (y ∷ ys) h =
      elim (before y x)
          as (λ b.
            In m (if b then y ∷ insert_sorted before x ys else x ∷ y ∷ ys) → In m (x ∷ y ∷ ys)) [
              | true ↦ λ k. elim k [
                | inl e ↦ inr (inl e)
                | inr later ↦ elim (In-insert_sorted m x ys later) [
                  | inl e ↦ inl e
                  | inr old ↦ inr (inr old)
                ]
              ]
              | false ↦ λ k. k
            ]
        h

  insert_sorted-In : (m x : A) (ys : List A) → In m (x ∷ ys) → In m (insert_sorted before x ys)
  unfolding insert_sorted
  insert_sorted-In m x [] h = h
  insert_sorted-In m x (y ∷ ys) h =
      elim (before y x) as (λ b. In m (if b then y ∷ insert_sorted before x ys else x ∷ y ∷ ys)) [
        | true ↦ elim h [
          | inl e ↦ inr (insert_sorted-In m x ys (inl e))
          | inr (inl e) ↦ inl e
          | inr (inr old) ↦ inr (insert_sorted-In m x ys (inr old))
        ]
        | false ↦ h
      ]

  pub In-sort_by : (m : A) (xs : List A) → In m (sort_by before xs) → In m xs
  unfolding sort_by
  In-sort_by m [] h = h
  In-sort_by m (x ∷ xs) h = elim (In-insert_sorted m x (sort_by before xs) h) [
    | inl e ↦ inl e
    | inr later ↦ inr (In-sort_by m xs later)
  ]

  pub sort_by-In : (m : A) (xs : List A) → In m xs → In m (sort_by before xs)
  unfolding sort_by
  sort_by-In m [] h = h
  sort_by-In m (x ∷ xs) (inl e) = insert_sorted-In m x (sort_by before xs) (inl e)
  sort_by-In m (x ∷ xs) (inr h) = insert_sorted-In m x (sort_by before xs) (inr (sort_by-In m xs h))

  pub All-insert_sorted :
      (P : A → Type 0) (x : A) (ys : List A) → P x → All P ys → All P (insert_sorted before x ys)
  unfolding insert_sorted
  All-insert_sorted P x [] hx h = (hx, tt)
  All-insert_sorted P x (y ∷ ys) hx (hy, h) =
      elim (before y x) as (λ b. All P (if b then y ∷ insert_sorted before x ys else x ∷ y ∷ ys)) [
        | true ↦ (hy, All-insert_sorted P x ys hx h)
        | false ↦ (hx, (hy, h))
      ]

  pub All-sort_by : (P : A → Type 0) (xs : List A) → All P xs → All P (sort_by before xs)
  unfolding sort_by
  All-sort_by P [] h = h
  All-sort_by P (x ∷ xs) (hx, h) = All-insert_sorted P x (sort_by before xs) hx (All-sort_by P xs h)
