-- ===== src/Base/Sort/Keys.antt =====
-- Rust's `sort_by_key`, for a key that is a number: the keys ascend.
use Prim.Native.Nat.{ℕ, ◌≤◌}
use mathlib.Core.Logic.{inl, inr}
use mathlib.Core.Bool.{Bool}
use mathlib.Core.List.{List, [], ◌∷◌}
use native.Mathlib.Omega.{arith}
use lm_resizer.Base.Tests.{ltb, ltb→lt, ltb_false→le, Bool-cases}
use lm_resizer.Base.Lists.{All, All-map}
use lm_resizer.Base.Sort.{insert_sorted, sort_by}
use lm_resizer.Base.Sort.Members.{All-insert_sorted}

module _ {A : Type 0} (key : A → ℕ) where
  abbrev pub lower_key : A → A → Bool
  lower_key a b = ltb (key a) (key b)

  abbrev pub Ascending : List A → Type 0
  Ascending [] = Unit {0}
  Ascending (x ∷ xs) = All (λ y. key x ≤ key y) xs × Ascending xs

  insert_sorted-Ascending :
      (x : A) (ys : List A) → Ascending ys → Ascending (insert_sorted lower_key x ys)
  unfolding insert_sorted
  insert_sorted-Ascending x [] h = (tt, tt)
  insert_sorted-Ascending x (y ∷ ys) (hy, h) = elim (Bool-cases (ltb (key y) (key x))) [
    | inl later ↦ rw (later) (
      All-insert_sorted lower_key (λ z. key y ≤ key z) x ys (omega (arith, ltb→lt _ _ later)) hy,
      insert_sorted-Ascending x ys h,
    )
    | inr here ↦
        let le = ltb_false→le _ _ here in
        rw (here) ((le, All-map ys (λ z hz. omega (arith, hz, le)) hy), (hy, h))
  ]

  pub sort_by-Ascending : (xs : List A) → Ascending (sort_by lower_key xs)
  unfolding sort_by
  sort_by-Ascending [] = tt
  sort_by-Ascending (x ∷ xs) =
      insert_sorted-Ascending x (sort_by lower_key xs) (sort_by-Ascending xs)
