-- ===== src/Base/Pigeonhole.antt =====
-- A list of elements that a relation tells apart is no longer than the list that they are from.
use Prim.Native.Nat.{suc, ◌≤◌}
use mathlib.Core.Path.{◌≡◌, refl, subst}
use mathlib.Core.Logic.{◌⊎◌, inl, inr}
use mathlib.Core.Bool.{Bool, true, false}
use mathlib.Core.List.{List, [], ◌∷◌}
use native.Mathlib.Omega.{arith}
use lm_resizer.Base.Lists.{In, All, length}

module _ {A : Type 0} where
  remove : (x : A) (xs : List A) → In x xs → List A
  remove x [] h = absurd h
  remove x (y ∷ xs) (inl e) = xs
  remove x (y ∷ xs) (inr h) = y ∷ remove x xs h

  length-remove : (x : A) (xs : List A) (h : In x xs) → length xs ≡ suc (length (remove x xs h))
  unfolding remove
  length-remove x [] h = absurd h
  length-remove x (y ∷ xs) (inl e) = refl
  length-remove x (y ∷ xs) (inr h) = omega (arith, length-remove x xs h)

  In-remove : (x y : A) (xs : List A) (h : In x xs) → In y xs → (x ≡ y) ⊎ In y (remove x xs h)
  unfolding remove
  In-remove x y [] h g = absurd h
  In-remove x y (z ∷ xs) (inl e) (inl e') = inl (cc)
  In-remove x y (z ∷ xs) (inl e) (inr g) = inr g
  In-remove x y (z ∷ xs) (inr h) (inl e') = inr (inl e')
  In-remove x y (z ∷ xs) (inr h) (inr g) = elim (In-remove x y xs h g) [
    | inl e ↦ inl e
    | inr left ↦ inr (inr left)
  ]

  module _ (same : A → A → Bool) (same_self : (x : A) → same x x ≡ true) where
    -- No element is the same as one before it.
    abbrev pub Unique : List A → Type 0
    Unique [] = Unit {0}
    Unique (x ∷ xs) = All (λ y. same y x ≡ false) xs × Unique xs

    All-remove :
        (x : A) (xs ys : List A) (h : In x xs)
        → All (λ y. same y x ≡ false) ys
        → All (λ y. In y xs) ys
        → All (λ y. In y (remove x xs h)) ys
    All-remove x xs [] h apart from = tt
    All-remove x xs (y ∷ ys) h (ne, apart) (at, from) = (
      elim (In-remove x y xs h at) [
        | inl e ↦ let clash = subst (λ z. same z x ≡ true) e (same_self x) in cc
        | inr left ↦ left
      ],
      All-remove x xs ys h apart from,
    )

    pub length-Unique-le :
        (ys xs : List A) → Unique ys → All (λ y. In y xs) ys → length ys ≤ length xs
    length-Unique-le [] xs unique from = omega arith
    length-Unique-le (y ∷ ys) xs (apart, unique) (at, from) = omega (
      arith,
      length-remove y xs at,
      length-Unique-le ys (remove y xs at) unique (All-remove y xs ys at apart from),
    )
