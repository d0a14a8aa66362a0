-- ===== src/Safety/Pairs/Calls.antt =====
-- Which assistant message announces a call: the last of those that have its id.
use lm_resizer.Base.{
  ℕ, suc, String, ◌≡◌, refl, Bool, ◌&&◌, ◌||◌, Option, none, some, List, [], ◌∷◌, arith, eq_iff,
  any, if◌then◌else◌, unwrap_or, Option-cases, Bool-cases, inl, inr,
}
use text.Mathlib.Text.{◌==◌ as str_eq}
use lm_resizer.Json.{JsonView, get_array, get_str, is_str}
use lm_resizer.Safety.{
  Announced, lookup, contains_str, insert_str, announce_ids, add_tool_calls, add_tool_uses,
  collect_assistant_tool_call_ids, announce,
}

contains-insert_str :
    (ids : List String) (k id : String)
    → contains_str (insert_str ids k) id ≡ (str_eq k id || contains_str ids id)
unfolding insert_str contains_str
contains-insert_str ids k id = ground (arith, eq_iff k id)

lookup-announce_ids :
    (i : ℕ) (m : Announced) (ids : List String) (id : String)
    → lookup (announce_ids i m ids) id ≡ (if contains_str ids id then some i else lookup m id)
unfolding lookup announce_ids contains_str
lookup-announce_ids i m [] id = refl
lookup-announce_ids i m (k ∷ ids) id = ground (arith, lookup-announce_ids i ((k, i) ∷ m) ids id)

module _ {V : Type 0} (j : JsonView V) where
  -- A message announces a call: it is the assistant's, and one of its `tool_calls` or one of its
  -- `tool_use` blocks has the id.
  abbrev pub announces : V → String → Bool
  announces msg id =
      is_str (get_str j msg "role") "assistant"
      && (any (λ tc. is_str (get_str j tc "id") id) (unwrap_or (get_array j msg "tool_calls") [])
          || any (λ b. is_str (get_str j b "type") "tool_use" && is_str (get_str j b "id") id)
              (unwrap_or (get_array j msg "content") []))

  -- The index of the last message that announces the call, the first index being `i`.
  abbrev pub last_announcer : ℕ → List V → String → Option ℕ
  last_announcer i [] id = none
  last_announcer i (m ∷ ms) id =
      let here = if announces m id then some i else none in
      elim (last_announcer (suc i) ms id) [ some a ↦ some a | none ↦ here ]

  contains-add_tool_calls :
      (ids : List String) (tcs : List V) (id : String)
      → contains_str (add_tool_calls j ids tcs) id
        ≡ (contains_str ids id || any (λ tc. is_str (get_str j tc "id") id) tcs)
  unfolding add_tool_calls
  contains-add_tool_calls ids [] id = ground arith
  contains-add_tool_calls ids (tc ∷ tcs) id = elim (Option-cases (get_str j tc "id")) [
    | inl miss ↦ ground (arith, miss, contains-add_tool_calls ids tcs id)
    | inr (k, hit) ↦ ground (
      arith,
      hit,
      contains-add_tool_calls (insert_str ids k) tcs id,
      contains-insert_str ids k id,
    )
  ]

  contains-add_tool_uses :
      (ids : List String) (bs : List V) (id : String)
      → contains_str (add_tool_uses j ids bs) id ≡ (
          contains_str ids id
          || any (λ b. is_str (get_str j b "type") "tool_use" && is_str (get_str j b "id") id) bs)
  unfolding add_tool_uses
  contains-add_tool_uses ids [] id = ground arith
  contains-add_tool_uses ids (b ∷ bs) id = elim (Option-cases (get_str j b "id")) [
    | inl miss ↦ ground (arith, miss, contains-add_tool_uses ids bs id)
    | inr (k, hit) ↦ ground (
      arith,
      hit,
      contains-add_tool_uses ids bs id,
      contains-add_tool_uses (insert_str ids k) bs id,
      contains-insert_str ids k id,
    )
  ]

  contains-collect :
      (msg : V) (id : String)
      → (is_str (get_str j msg "role") "assistant"
          && contains_str (collect_assistant_tool_call_ids j msg) id)
        ≡ announces msg id
  unfolding collect_assistant_tool_call_ids contains_str
  contains-collect msg id =
      let calls = unwrap_or (get_array j msg "tool_calls") [] in
      let blocks = unwrap_or (get_array j msg "content") [] in
      ground (
        arith,
        contains-add_tool_uses (add_tool_calls j [] calls) blocks id,
        contains-add_tool_calls [] calls id,
      )

  abbrev or_else : Option ℕ → Option ℕ → Option ℕ
  or_else none o = o
  or_else (some a) o = some a

  lookup-announce :
      (i : ℕ) (an : Announced) (ms : List V) (id : String)
      → lookup (announce j i an ms) id ≡ or_else (last_announcer i ms id) (lookup an id)
  unfolding announce
  lookup-announce i an [] id = refl
  lookup-announce i an (m ∷ ms) id =
      let ids = collect_assistant_tool_call_ids j m in
      elim (Bool-cases (is_str (get_str j m "role") "assistant")) [
        | inl yours ↦ ground (
          arith,
          yours,
          contains-collect m id,
          lookup-announce_ids i an ids id,
          lookup-announce (suc i) (announce_ids i an ids) ms id,
        )
        | inr other ↦ ground (arith, other, lookup-announce (suc i) an ms id)
      ]

  pub lookup-announced :
      (ms : List V) (id : String) → lookup (announce j 0 [] ms) id ≡ last_announcer 0 ms id
  unfolding lookup
  lookup-announced ms id = ground (arith, lookup-announce 0 [] ms id)
