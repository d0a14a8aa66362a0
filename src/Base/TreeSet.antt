-- ===== src/Base/TreeSet.antt =====
-- Rust's `BTreeSet` of elements that are ordered by a number: a list with ascending keys.
pub mod Laws
use Prim.Native.Nat.{ℕ}
use mathlib.Core.Bool.{Bool}
use mathlib.Core.List.{List, [], ◌∷◌}
use lm_resizer.Base.Tests.{ltb, ◌==◌, if◌then◌else◌}

module _ {A : Type 0} (key : A → ℕ) where
  -- `set.insert(x)`: an element with the key of `x` stays.
  unfoldable pub add : A → List A → List A
  add x [] = x ∷ []
  add x (y ∷ ys) =
      let rest = add x ys in
      if key x == key y then y ∷ ys else if ltb (key x) (key y) then x ∷ y ∷ ys else y ∷ rest

  -- `for x in xs { set.insert(x) }`.
  unfoldable pub add_all : List A → List A → List A
  add_all [] set = set
  add_all (x ∷ xs) set = add_all xs (add x set)
