-- ===== src/LiveZone/OpenAi.antt =====
-- live_zone.rs: `compress_openai_chat_live_zone`.
use lm_resizer.Base.{
  ℕ, suc, ◌+◌, Option, none, some, List, [], ◌∷◌, ◌++◌, length, map, get_elem?, String, Bytes,
  codes, bytes_eq, ◌==◌, if◌then◌else◌, unwrap_or, ◌>>=◌,
}
use lm_resizer.Json.{JsonView, get_array, get_str, is_str}
use lm_resizer.LiveZone.{
  BlockOutcome, body_not_json, no_messages_array, LiveZoneResult, failed, no_change,
}
use lm_resizer.LiveZone.Plan.{RawValue, Views, bytes_offset_of, is_string, body_value}
use lm_resizer.LiveZone.Query.{relevance_query_from_message}
use lm_resizer.LiveZone.Dispatch.{Services, Effects, compress_one_block}
use lm_resizer.LiveZone.Run.{Bodies, manifest_of, empty_manifest, finish}

pub record OpenAiPlanSlot : Type 0 where
  pub block_index : Option ℕ
  pub block_type : Bytes
  pub content_text : Bytes
  pub content_byte_range : ℕ × ℕ

module _ {V : Type 0} (j : JsonView V) where
  -- The last of the messages from `idx` on that has the role.
  unfoldable pub find_role : String → ℕ → List V → Option ℕ
  find_role role idx [] = none
  find_role role idx (m ∷ messages) = elim (find_role role (suc idx) messages) [
    | some i ↦ some i
    | none ↦ if is_str (get_str j m "role") role then some idx else none
  ]

  unfoldable pub find_latest_role_index : List V → String → Option ℕ
  find_latest_role_index messages role = find_role role 0 messages

  unfoldable pub latest_user_query : (Bytes → Bytes) → List V → Bytes
  latest_user_query trim messages =
      elim (find_latest_role_index messages "user" >>= λ idx. get_elem? messages idx) [
        | none ↦ []
        | some m ↦ relevance_query_from_message j trim m
      ]

module _ (v : Views) where
  -- The place of a message's content in the body.
  unfoldable pub content_offset : Bytes → RawValue → RawValue → Option ℕ
  content_offset body message content = do
    in_message ← bytes_offset_of message content
    in_body ← bytes_offset_of (body_value body) message
    some (in_body + in_message)

  abbrev pub string_slot : Bytes → RawValue → ℕ → Bytes → OpenAiPlanSlot
  string_slot block_type content offset unescaped = record {
    block_index = none;
    block_type = block_type;
    content_text = unescaped;
    content_byte_range = (offset, offset + length content.text);
  }

  unfoldable pub tool_slot : Bytes → RawValue → Option RawValue → Option OpenAiPlanSlot
  tool_slot body message none = none
  tool_slot body message (some content) = do
    offset ← content_offset body message content
    let unescape = do
      unescaped ← v.string content.text
      some (string_slot (codes "tool_content") content offset unescaped)
    if is_string content.text then unescape else none

  unfoldable pub plan_openai_tool_message : Bytes → ℕ → Option OpenAiPlanSlot
  plan_openai_tool_message body msg_idx = do
    messages ← v.messages body
    message ← get_elem? messages msg_idx
    content ← v.content message
    tool_slot body message content

  -- The slot of a text part; `some none` where there is nothing to compress.
  unfoldable pub text_slot :
      RawValue → ℕ → ℕ → RawValue → Option RawValue → Option (Option OpenAiPlanSlot)
  text_slot content offset idx part none = some none
  text_slot content offset idx part (some text) = do
    in_content ← bytes_offset_of content part
    in_part ← bytes_offset_of part text
    let start = (offset + in_content) + in_part
    let unescape = do
      unescaped ← v.string text.text
      some (
          some (record {
            block_index = some idx;
            block_type = codes "user_text";
            content_text = unescaped;
            content_byte_range = (start, start + length text.text);
          }))
    if is_string text.text then unescape else some none

  unfoldable pub part_slot : RawValue → ℕ → ℕ → RawValue → Option (Option OpenAiPlanSlot)
  part_slot content offset idx part = do
    (type, inner) ← v.header part
    let slot = v.text part >>= λ text. text_slot content offset idx part text
    if bytes_eq (unwrap_or type (codes "unknown")) (codes "text") then slot else some none

  abbrev pub push_slot : Option OpenAiPlanSlot → List OpenAiPlanSlot → List OpenAiPlanSlot
  push_slot none slots = slots
  push_slot (some slot) slots = slot ∷ slots

  unfoldable pub plan_parts : RawValue → ℕ → ℕ → List RawValue → Option (List OpenAiPlanSlot)
  plan_parts content offset idx [] = some []
  plan_parts content offset idx (part ∷ parts) = do
    slot ← part_slot content offset idx part
    slots ← plan_parts content offset (suc idx) parts
    some (push_slot slot slots)

  unfoldable pub user_slots : Bytes → RawValue → Option RawValue → Option (List OpenAiPlanSlot)
  user_slots body message none = some []
  user_slots body message (some content) = do
    offset ← content_offset body message content
    let unescape = do
      unescaped ← v.string content.text
      some (string_slot (codes "user_string") content offset unescaped ∷ [])
    let parts = v.elements content >>= λ parts. plan_parts content offset 0 parts
    if is_string content.text then unescape else parts

  unfoldable pub plan_openai_user_message : Bytes → ℕ → Option (List OpenAiPlanSlot)
  plan_openai_user_message body msg_idx = do
    messages ← v.messages body
    message ← get_elem? messages msg_idx
    content ← v.content message
    user_slots body message content

  -- The slots of a message, each with the place of the message.
  abbrev pub at_message : ℕ → List OpenAiPlanSlot → List (ℕ × OpenAiPlanSlot)
  at_message idx slots = map (λ slot. (idx, slot)) slots

  abbrev pub tool_slots : Bytes → Option ℕ → List (ℕ × OpenAiPlanSlot)
  tool_slots body none = []
  tool_slots body (some idx) = elim (plan_openai_tool_message body idx) [
    | none ↦ []
    | some slot ↦ (idx, slot) ∷ []
  ]

  abbrev pub all_user_slots : Bytes → Option ℕ → List (ℕ × OpenAiPlanSlot)
  all_user_slots body none = []
  all_user_slots body (some idx) = at_message idx (unwrap_or (plan_openai_user_message body idx) [])

module _ {S : Type 0} (services : Services S) where
  unfoldable pub run_openai_slots :
      Bytes → List (ℕ × OpenAiPlanSlot) → Effects S → List BlockOutcome × Effects S
  run_openai_slots query [] effects = ([], effects)
  run_openai_slots query ((msg_idx, slot) ∷ slots) effects =
      let (outcome, next) =
        compress_one_block services slot.content_text
          (services.detect_content_type slot.content_text) query slot.content_byte_range
          (record {
            message_index = msg_idx;
            block_index = slot.block_index;
            block_type = slot.block_type;
          })
          effects in
      let (outcomes, last) = run_openai_slots query slots next in (outcome ∷ outcomes, last)

module _ {V S : Type 0} (j : JsonView V) (bodies : Bodies V) (v : Views)
    (services : Services S) where
  -- No store is given to the blocks of this route.
  unfoldable pub run_all_slots :
      Bytes → List V → Option ℕ → List (ℕ × OpenAiPlanSlot) → LiveZoneResult
  run_all_slots body messages latest_user [] =
      no_change (manifest_of (length messages) 0 latest_user [])
  run_all_slots body messages latest_user (slot ∷ slots) =
      let query = latest_user_query j services.patterns.trim messages in
      let (outcomes, effects) =
        run_openai_slots services query (slot ∷ slots)
          (record { replacements = []; store = none }) in
      finish bodies body (manifest_of (length messages) 0 latest_user outcomes) effects.replacements

  unfoldable pub compress_chat_messages : Bytes → List V → LiveZoneResult
  compress_chat_messages body messages =
      let latest_tool = find_latest_role_index j messages "tool" in
      let latest_user = find_latest_role_index j messages "user" in
      if length messages == 0
      then no_change empty_manifest
      else run_all_slots body messages latest_user
          (tool_slots v body latest_tool ++ all_user_slots v body latest_user)

  unfoldable pub compress_openai_chat_live_zone : Bytes → LiveZoneResult
  compress_openai_chat_live_zone body = elim (bodies.parse body) [
    | none ↦ failed body_not_json
    | some parsed ↦ elim (get_array j parsed "messages") [
      | none ↦ failed no_messages_array
      | some messages ↦ compress_chat_messages body messages
    ]
  ]
