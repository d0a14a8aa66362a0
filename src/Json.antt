-- ===== src/Json.antt =====
-- What the request walkers use of `serde_json::Value`. The crate is not part of the repository, so
-- its accessors are a parameter; the walkers rely on no law of theirs.
use lm_resizer.Base.{String, Bool, false, Option, none, some, List, [], ◌∷◌, if◌then◌else◌, ◌>>=◌}
use text.Mathlib.Text.{◌==◌}

pub record JsonView (V : Type 0) : Type 0 where
  pub get : V → String → Option V
  pub as_array : V → Option (List V)
  pub as_str : V → Option String

module _ {V : Type 0} (j : JsonView V) where
  -- `v.get(key).and_then(Value::as_array)` and `v.get(key).and_then(Value::as_str)`.
  abbrev pub get_array : V → String → Option (List V)
  get_array v key = j.get v key >>= j.as_array

  abbrev pub get_str : V → String → Option String
  get_str v key = j.get v key >>= j.as_str

-- `opt == Some(s)`.
abbrev pub is_str : Option String → String → Bool
is_str none s = false
is_str (some t) s = t == s

-- A tree of values, for the examples: a later member of a name is not seen.
mutual
  pub data Value : Type 0 where
    str : String → Value
    obj : Members → Value
    arr : Elements → Value

  pub data Members : Type 0 where
    no_members : Members
    member : String → Value → Members → Members

  pub data Elements : Type 0 where
    element : Value → Elements → Elements
    no_elements : Elements

abbrev member_of : Members → String → Option Value
member_of no_members k = none
member_of (member j v more) k = if j == k then some v else member_of more k

abbrev elements_of : Elements → List Value
elements_of no_elements = []
elements_of (element v more) = v ∷ elements_of more

abbrev tree_get : Value → String → Option Value
tree_get (obj m) k = member_of m k
tree_get (arr e) k = none
tree_get (str s) k = none

abbrev tree_array : Value → Option (List Value)
tree_array (arr e) = some (elements_of e)
tree_array (obj m) = none
tree_array (str s) = none

abbrev tree_str : Value → Option String
tree_str (str s) = some s
tree_str (obj m) = none
tree_str (arr e) = none

abbrev pub tree : JsonView Value
tree = record { get = tree_get; as_array = tree_array; as_str = tree_str }
