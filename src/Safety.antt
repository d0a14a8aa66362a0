-- ===== src/Safety.antt =====
-- crates/lm-resizer-core/src/transforms/safety.rs: which tool call each tool response answers.
-- A map is an association list whose first pair of a key counts, and a set a list without repeats.
pub mod Pairs
use lm_resizer.Base.{
  ℕ, zero, suc, String, Bool, true, false, ◌&&◌, ◌||◌, Option, none, some, List, [], ◌∷◌, ◌++◌,
  ◌==◌, if◌then◌else◌, unwrap_or,
}
use text.Mathlib.Text.{◌==◌ as str_eq}
use lm_resizer.Json.{JsonView, get_array, get_str, is_str}

pub record ToolPair : Type 0 where
  pub assistant_index : ℕ
  pub response_index : ℕ

abbrev pub Announced : Type 0
Announced = List (String × ℕ)

unfoldable pub lookup : Announced → String → Option ℕ
lookup [] id = none
lookup ((k, i) ∷ m) id = if str_eq k id then some i else lookup m id

unfoldable pub contains_str : List String → String → Bool
contains_str [] id = false
contains_str (k ∷ ks) id = str_eq k id || contains_str ks id

-- `ids.insert(id)`.
unfoldable pub insert_str : List String → String → List String
insert_str ids id = if contains_str ids id then ids else id ∷ ids

unfoldable pub contains_pair : List (ℕ × ℕ) → ℕ → ℕ → Bool
contains_pair [] a i = false
contains_pair ((b, k) ∷ ps) a i = (b == a && k == i) || contains_pair ps a i

-- What `tool_pair_indices` has pushed and seen.
pub record PairScan : Type 0 where
  pub pairs : List ToolPair
  pub seen : List (ℕ × ℕ)

-- `if seen.insert((assistant_index, i)) { pairs.push(…) }`.
unfoldable pub record_pair : PairScan → ℕ → ℕ → PairScan
record_pair s a i = if contains_pair s.seen a i then s else record {
  pairs = s.pairs ++ record { assistant_index = a; response_index = i } ∷ [];
  seen = (a, i) ∷ s.seen;
}

-- A response to the call `id` in message `i`: a pair where the call was announced.
unfoldable pub respond : Announced → ℕ → PairScan → String → PairScan
respond announced i s id = elim (lookup announced id) [ none ↦ s | some a ↦ record_pair s a i ]

unfoldable pub announce_ids : ℕ → Announced → List String → Announced
announce_ids i m [] = m
announce_ids i m (id ∷ ids) = announce_ids i ((id, i) ∷ m) ids

module _ {V : Type 0} (j : JsonView V) where
  -- The loop over `tool_calls`.
  unfoldable pub add_tool_calls : List String → List V → List String
  add_tool_calls ids [] = ids
  add_tool_calls ids (tc ∷ tcs) =
      add_tool_calls (elim (get_str j tc "id") [ none ↦ ids | some id ↦ insert_str ids id ]) tcs

  -- The loop over the content blocks.
  unfoldable pub add_tool_uses : List String → List V → List String
  add_tool_uses ids [] = ids
  add_tool_uses ids (b ∷ bs) =
      add_tool_uses
        (if is_str (get_str j b "type") "tool_use"
          then elim (get_str j b "id") [ none ↦ ids | some id ↦ insert_str ids id ]
          else ids)
        bs

  unfoldable pub collect_assistant_tool_call_ids : V → List String
  collect_assistant_tool_call_ids assistant =
      add_tool_uses (add_tool_calls [] (unwrap_or (get_array j assistant "tool_calls") []))
        (unwrap_or (get_array j assistant "content") [])

  -- The first loop of `tool_pair_indices`.
  unfoldable pub announce : ℕ → Announced → List V → Announced
  announce i m [] = m
  announce i m (msg ∷ msgs) =
      announce (suc i)
        (if is_str (get_str j msg "role") "assistant"
          then announce_ids i m (collect_assistant_tool_call_ids msg)
          else m)
        msgs

  unfoldable pub respond_blocks : Announced → ℕ → PairScan → List V → PairScan
  respond_blocks announced i s [] = s
  respond_blocks announced i s (b ∷ bs) =
      respond_blocks announced i
        (if is_str (get_str j b "type") "tool_result"
          then elim (get_str j b "tool_use_id") [ none ↦ s | some id ↦ respond announced i s id ]
          else s)
        bs

  -- The `role == "tool"` branch, then the `role == "user"` branch.
  unfoldable pub scan_tool : Announced → ℕ → PairScan → V → PairScan
  scan_tool announced i s msg =
      if is_str (get_str j msg "role") "tool"
      then elim (get_str j msg "tool_call_id") [ none ↦ s | some id ↦ respond announced i s id ]
      else s

  unfoldable pub scan_user : Announced → ℕ → PairScan → V → PairScan
  scan_user announced i s msg =
      if is_str (get_str j msg "role") "user"
      then respond_blocks announced i s (unwrap_or (get_array j msg "content") [])
      else s

  -- The second loop.
  unfoldable pub scan : Announced → ℕ → PairScan → List V → PairScan
  scan announced i s [] = s
  scan announced i s (msg ∷ msgs) =
      scan announced (suc i) (scan_user announced i (scan_tool announced i s msg) msg) msgs

  unfoldable pub tool_pair_indices : List V → List ToolPair
  tool_pair_indices messages =
      (scan (announce 0 [] messages) 0 (record { pairs = []; seen = [] }) messages).pairs
