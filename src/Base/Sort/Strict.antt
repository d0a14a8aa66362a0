-- ===== src/Base/Sort/Strict.antt =====
-- Sorting elements with different keys by their keys gives a strict order.
use Prim.Native.Nat.{ℕ, zero, suc, ◌≤◌, ◌<◌}
use mathlib.Core.Path.{sym}
use mathlib.Core.Logic.{◌≢◌, inl, inr}
use mathlib.Core.Bool.{Bool}
use mathlib.Core.List.{List, [], ◌∷◌}
use native.Mathlib.Omega.{arith}
use lm_resizer.Base.Tests.{Bool-cases}
use lm_resizer.Base.Lists.{All, All-map, All-take, take}
use lm_resizer.Base.Sort.{insert_sorted, sort_by}
use lm_resizer.Base.Sort.Members.{All-insert_sorted, All-sort_by}
use lm_resizer.Base.Sort.Keys.{lower_key, Ascending, sort_by-Ascending}
use lm_resizer.Base.TreeSet.Laws.{IsStrict}

module _ {A : Type 0} (key : A → ℕ) where
  abbrev Different : List A → Type 0
  Different [] = Unit {0}
  Different (x ∷ xs) = All (λ y. key x ≢ key y) xs × Different xs

  IsStrict-Different : (xs : List A) → IsStrict key xs → Different xs
  IsStrict-Different [] h = tt
  IsStrict-Different (x ∷ xs) (above, h) =
      (All-map xs (λ y lt e. omega (arith, lt, e)) above, IsStrict-Different xs h)

  insert_sorted-Different :
      (before : A → A → Bool) (x : A) (ys : List A)
      → All (λ y. key x ≢ key y) ys
      → Different ys
      → Different (insert_sorted before x ys)
  unfolding insert_sorted
  insert_sorted-Different before x [] hx h = (tt, tt)
  insert_sorted-Different before x (y ∷ ys) (ne, hx) (hy, h) = elim (Bool-cases (before y x)) [
    | inl later ↦ rw (later) (
      All-insert_sorted before (λ z. key y ≢ key z) x ys (λ e. ne (sym e)) hy,
      insert_sorted-Different before x ys hx h,
    )
    | inr here ↦ rw (here) ((ne, hx), (hy, h))
  ]

  sort_by-Different :
      (before : A → A → Bool) (xs : List A) → Different xs → Different (sort_by before xs)
  unfolding sort_by
  sort_by-Different before [] h = tt
  sort_by-Different before (x ∷ xs) (hx, h) =
      insert_sorted-Different before x (sort_by before xs)
        (All-sort_by before (λ y. key x ≢ key y) xs hx) (sort_by-Different before xs h)

  take-Different : (n : ℕ) (xs : List A) → Different xs → Different (take n xs)
  take-Different zero xs h = tt
  take-Different (suc n) [] h = tt
  take-Different (suc n) (x ∷ xs) (hx, h) =
      (All-take (λ y. key x ≢ key y) n xs hx, take-Different n xs h)

  All-lt :
      (x : A) (ys : List A)
      → All (λ y. key x ≤ key y) ys
      → All (λ y. key x ≢ key y) ys
      → All (λ y. key x < key y) ys
  All-lt x [] le ne = tt
  All-lt x (y ∷ ys) (le, les) (ne, nes) = (omega arith, All-lt x ys les nes)

  Ascending-IsStrict : (xs : List A) → Ascending key xs → Different xs → IsStrict key xs
  Ascending-IsStrict [] h d = tt
  Ascending-IsStrict (x ∷ xs) (le, h) (ne, d) = (All-lt x xs le ne, Ascending-IsStrict xs h d)

  -- The best `n` of a set, by any order, back in the order of their keys.
  pub best-IsStrict :
      (before : A → A → Bool) (n : ℕ) (xs : List A)
      → IsStrict key xs
      → IsStrict key (sort_by (lower_key key) (take n (sort_by before xs)))
  best-IsStrict before n xs h =
      let best = take n (sort_by before xs) in
      Ascending-IsStrict (sort_by (lower_key key) best) (sort_by-Ascending key best) (
        sort_by-Different (lower_key key) best (
          take-Different n (sort_by before xs)
            (sort_by-Different before xs (IsStrict-Different xs h))))
