-- ===== src/Base/TreeMap.antt =====
-- Rust's `BTreeMap` with texts for keys: pairs in the order of their keys.
pub mod Laws
pub mod Order
use Prim.Native.Nat.{ℕ}
use mathlib.Core.Bool.{Bool, true, false}
use mathlib.Core.List.{List, [], ◌∷◌, map}
use mathlib.Core.Option.{Option, none, some}
use lm_resizer.Base.Tests.{ltb, ◌==◌, if◌then◌else◌}
use lm_resizer.Base.Text.{Bytes, bytes_eq}

-- The order of `str`: byte by byte.
abbrev pub bytes_lt : Bytes → Bytes → Bool
bytes_lt s [] = false
bytes_lt [] (d ∷ t) = true
bytes_lt (c ∷ s) (d ∷ t) = if ltb c d then true else if c == d then bytes_lt s t else false

abbrev pub TreeMap : Type 0 → Type 0
TreeMap V = List (Bytes × V)

module _ {V : Type 0} where
  -- `map.entry(k)`: the value there, or none, is replaced by `f` of it.
  unfoldable pub update : Bytes → (Option V → V) → TreeMap V → TreeMap V
  update k f [] = (k, f none) ∷ []
  update k f ((j, v) ∷ m) =
      let rest = update k f m in
      if bytes_eq k j
      then (j, f (some v)) ∷ m
      else if bytes_lt k j
      then (k, f none) ∷ (j, v) ∷ m
      else (j, v) ∷ rest

  unfoldable pub insert : Bytes → V → TreeMap V → TreeMap V
  insert k v m = update k (λ _. v) m

  unfoldable pub get : Bytes → TreeMap V → Option V
  get k [] = none
  get k ((j, v) ∷ m) = if bytes_eq k j then some v else get k m

  abbrev pub values : TreeMap V → List V
  values = map (λ e. e.1)
