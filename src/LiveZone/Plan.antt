-- ===== src/LiveZone/Plan.antt =====
-- live_zone.rs: `plan_block_replacements`. A `RawValue` is a piece of the body with its place. The
-- caller does not tell the errors apart: they are `none`.
pub mod Inside
use lm_resizer.Base.{
  ℕ, suc, ◌+◌, ◌-◌, Bool, true, false, ◌||◌, Option, none, some, List, [], ◌∷◌, length, get_elem?,
  any, Bytes, codes, starts_with, bytes_eq, ltb, if◌then◌else◌, ◌>>=◌,
}

pub record RawValue : Type 0 where
  pub start : ℕ
  pub text : Bytes

-- What `serde_json` reads from a text, `none` where it fails.
pub record Views : Type 0 where
  -- `BodyView`: the messages of the body.
  pub messages : Bytes → Option (List RawValue)
  -- `MessageView`: the content of a message.
  pub content : RawValue → Option (Option RawValue)
  pub elements : RawValue → Option (List RawValue)
  -- `BlockHeader`: the type and the content of a block.
  pub header : RawValue → Option (Option Bytes × Option RawValue)
  -- `TextHeader`, and `Probe`.
  pub text : RawValue → Option (Option RawValue)
  pub string : Bytes → Option Bytes
  pub trim_start : Bytes → Bytes

pub data SlotKind : Type 0 where
  compressible : Bytes → Bytes → ℕ × ℕ → SlotKind
  string_content : Bytes → ℕ × ℕ → SlotKind
  hot_zone : Bytes → SlotKind

pub record PlanSlot : Type 0 where
  pub block_index : ℕ
  pub kind : SlotKind

-- Pointers into the same text.
unfoldable pub bytes_offset_of : RawValue → RawValue → Option ℕ
bytes_offset_of parent child =
    if ltb child.start parent.start
      || ltb (parent.start + length parent.text) (child.start + length child.text)
    then none
    else some (child.start - parent.start)

abbrev pub is_string : Bytes → Bool
is_string s = starts_with (b'"' ∷ []) s

abbrev pub is_hot : Bytes → Bool
is_hot block_type =
    any (bytes_eq block_type)
      (codes "tool_use" ∷ codes "thinking" ∷ codes "redacted_thinking" ∷ codes "compaction" ∷ [])

abbrev pub body_value : Bytes → RawValue
body_value body = record { start = 0; text = body }

module _ (v : Views) where
  unfoldable pub block_has_string_text_field : RawValue → Bool
  block_has_string_text_field block = elim (v.text block) [
    | none ↦ false
    | some none ↦ false
    | some (some t) ↦ is_string (v.trim_start t.text)
  ]

  unfoldable pub block_type_of : RawValue → Option Bytes → Bytes
  block_type_of block (some t) = t
  block_type_of block none =
      if block_has_string_text_field block then codes "text" else codes "unknown"

  -- The field of the block that may be compressed.
  unfoldable pub inner_field : Bytes → RawValue → Option RawValue → Option (Option RawValue)
  inner_field block_type block content =
      if bytes_eq block_type (codes "tool_result")
      then some content
      else if bytes_eq block_type (codes "text")
      then v.text block
      else some none

  abbrev pub nothing_at : Bytes → ℕ → SlotKind
  nothing_at block_type offset = compressible block_type [] (offset, offset)

  -- A field that is no string is left alone.
  unfoldable pub field_slot : Bytes → RawValue → ℕ → Option RawValue → Option SlotKind
  field_slot block_type block block_offset none = some (nothing_at block_type block_offset)
  field_slot block_type block block_offset (some field) = do
    off ← bytes_offset_of block field
    let start = block_offset + off
    let unescape = do
      unescaped ← v.string field.text
      some (compressible block_type unescaped (start, start + length field.text))
    if is_string field.text then unescape else some (nothing_at block_type block_offset)

  -- One block, at its place in the body.
  unfoldable pub block_slot : RawValue → ℕ → Option SlotKind
  block_slot block block_offset = do
    (type, content) ← v.header block
    let block_type = block_type_of block type
    let slot = inner_field block_type block content >>= λ field.
        field_slot block_type block block_offset field
    if is_hot block_type then some (hot_zone block_type) else slot

  unfoldable pub plan_blocks : RawValue → ℕ → ℕ → List RawValue → Option (List PlanSlot)
  plan_blocks content content_offset i [] = some []
  plan_blocks content content_offset i (block ∷ blocks) = do
    off ← bytes_offset_of content block
    kind ← block_slot block (content_offset + off)
    slots ← plan_blocks content content_offset (suc i) blocks
    some (record { block_index = i; kind = kind } ∷ slots)

  abbrev pub content_slots : RawValue → ℕ → Bytes → List PlanSlot
  content_slots content offset unescaped =
      record {
        block_index = 0;
        kind = string_content unescaped (offset, offset + length content.text);
      }
      ∷ []

  unfoldable pub plan_content : RawValue → ℕ → Option (List PlanSlot)
  plan_content content offset =
      if is_string content.text
      then (v.string content.text >>= λ unescaped. some (content_slots content offset unescaped))
      else (v.elements content >>= λ blocks. plan_blocks content offset 0 blocks)

  -- The content of a message, at its place in the body.
  unfoldable pub plan_some : Bytes → RawValue → Option RawValue → Option (List PlanSlot)
  plan_some body message none = some []
  plan_some body message (some content) = do
    in_message ← bytes_offset_of message content
    in_body ← bytes_offset_of (body_value body) message
    plan_content content (in_body + in_message)

  unfoldable pub plan_block_replacements : Bytes → ℕ → Option (List PlanSlot)
  plan_block_replacements body target = do
    messages ← v.messages body
    message ← get_elem? messages target
    content ← v.content message
    plan_some body message content
