-- ===== src/Ccr/ShardMap.antt =====
-- What crates/lm-resizer-core/src/ccr/backends/in_memory.rs uses of `dashmap::DashMap`. The crate
-- is not part of the repository, so its operations are a parameter, with their documented laws.
-- `remove_if` is `remove` under the predicate, which the caller writes out.
use lm_resizer.Base.{
  ℕ, suc, ◌+◌, String, ◌≡◌, refl, Option, none, some, List, [], ◌∷◌, arith, eq_iff, is_some,
  Option-cases, inl, inr, if◌then◌else◌,
}
use text.Mathlib.Text.{◌==◌ as str_eq}
use text.Mathlib.TextPositions.{eq_refl}

pub record ShardMap (V M : Type 0) : Type 0 where
  pub empty : M
  pub get : M → String → Option V
  pub insert : M → String → V → M
  pub remove : M → String → M
  pub len : M → ℕ

pub record Laws {V M : Type 0} (d : ShardMap V M) : Type 0 where
  pub get-empty : (k : String) → d.get d.empty k ≡ none
  pub get-insert :
      (m : M) (k j : String) (v : V)
      → d.get (d.insert m k v) j ≡ (if str_eq k j then some v else d.get m j)
  pub get-remove :
      (m : M) (k j : String) → d.get (d.remove m k) j ≡ (if str_eq k j then none else d.get m j)
  pub len-insert_new :
      (m : M) (k : String) (v : V) → d.get m k ≡ none → d.len (d.insert m k v) ≡ d.len m + 1
  pub len-insert_old :
      (m : M) (k : String) (v w : V) → d.get m k ≡ some w → d.len (d.insert m k v) ≡ d.len m
  pub len-remove_hit :
      (m : M) (k : String) (w : V) → d.get m k ≡ some w → d.len (d.remove m k) + 1 ≡ d.len m
  pub len-remove_miss : (m : M) (k : String) → d.get m k ≡ none → d.len (d.remove m k) ≡ d.len m
  pub len-of_none : (m : M) → ((k : String) → d.get m k ≡ none) → d.len m ≡ 0

-- An association list meets the laws: the first pair of a key counts, and `len` counts keys.
module _ {V : Type 0} where
  abbrev lookup : List (String × V) → String → Option V
  lookup [] k = none
  lookup ((j, v) ∷ m) k = if str_eq j k then some v else lookup m k

  abbrev drop_key : List (String × V) → String → List (String × V)
  drop_key [] k = []
  drop_key ((j, w) ∷ m) k = let rest = drop_key m k in if str_eq j k then rest else (j, w) ∷ rest

  abbrev len_keys : List (String × V) → ℕ
  len_keys [] = 0
  len_keys ((j, v) ∷ m) = let rest = len_keys m in if is_some (lookup m j) then rest else suc rest

  lookup-drop_key :
      (m : List (String × V)) (k j : String)
      → lookup (drop_key m k) j ≡ (if str_eq k j then none else lookup m j)
  lookup-drop_key [] k j = ground arith
  lookup-drop_key ((i, v) ∷ m) k j =
      ground (arith, lookup-drop_key m k j, eq_iff i k, eq_iff i j, eq_iff k j)

  len-drop_key_miss :
      (m : List (String × V)) (k : String)
      → lookup m k ≡ none
      → len_keys (drop_key m k) ≡ len_keys m
  len-drop_key_miss [] k h = refl
  len-drop_key_miss ((j, v) ∷ m) k h =
      ground (arith, len-drop_key_miss m k, lookup-drop_key m k j, eq_iff k j, eq_iff j k)

  len-drop_key_hit :
      (m : List (String × V)) (k : String) (w : V)
      → lookup m k ≡ some w
      → len_keys (drop_key m k) + 1 ≡ len_keys m
  len-drop_key_hit [] k w h = cc
  len-drop_key_hit ((j, v) ∷ m) k w h = elim (Option-cases (lookup m k)) [
    | inl miss ↦
        ground
          (arith, miss, len-drop_key_miss m k miss, lookup-drop_key m k j, eq_iff k j, eq_iff j k)
    | inr (u, hit) ↦
        ground
          (arith, hit, len-drop_key_hit m k u hit, lookup-drop_key m k j, eq_iff k j, eq_iff j k)
  ]

  len-of_none_keys : (m : List (String × V)) → ((k : String) → lookup m k ≡ none) → len_keys m ≡ 0
  len-of_none_keys [] h = refl
  len-of_none_keys ((j, v) ∷ m) h = ground (arith, h j, eq_refl j)

abbrev pub assoc : {V : Type 0} → ShardMap V (List (String × V))
assoc = record {
  empty = [];
  get = lookup;
  insert = λ m k v. (k, v) ∷ m;
  remove = drop_key;
  len = len_keys;
}

pub assoc-Laws : {V : Type 0} → Laws (assoc {V = V})
assoc-Laws = record {
  get-empty = λ k. refl;
  get-insert = λ m k j v. refl;
  get-remove = lookup-drop_key;
  len-insert_new = λ m k v h. ground arith;
  len-insert_old = λ m k v w h. ground arith;
  len-remove_hit = len-drop_key_hit;
  len-remove_miss = len-drop_key_miss;
  len-of_none = len-of_none_keys;
}
