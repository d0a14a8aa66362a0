-- ===== src/LiveZone/Query.antt =====
-- live_zone.rs: what the user asks in a message.
use lm_resizer.Base.{
  ℕ, zero, suc, Bool, ◌||◌, Option, none, some, List, [], ◌∷◌, ◌++◌, length, take, get_elem?,
  String, Bytes, codes, is_empty, ltb, leb, ◌==◌, if◌then◌else◌, unwrap_or,
}
use lm_resizer.Json.{JsonView, get_str, is_str}

-- `is_char_boundary`: no byte that goes on with a character.
abbrev pub is_char_boundary : Bytes → ℕ → Bool
is_char_boundary s i = elim (get_elem? s i) [
  | none ↦ i == length s
  | some b ↦ ltb b 128 || leb 192 b
]

unfoldable pub boundary_before : Bytes → ℕ → ℕ
boundary_before s zero = zero
boundary_before s (suc n) =
    let earlier = boundary_before s n in if is_char_boundary s (suc n) then suc n else earlier

unfoldable pub truncate_on_char_boundary : Bytes → ℕ → Bytes
truncate_on_char_boundary s max = if leb (length s) max then s else take (boundary_before s max) s

module _ {V : Type 0} (j : JsonView V) where
  abbrev pub is_text_part : Option String → Bool
  is_text_part ty = is_str ty "text" || (is_str ty "input_text" || is_str ty "output_text")

  unfoldable pub push_part : Bytes → V → Bytes
  push_part text item = elim (get_str j item "text") [
    | none ↦ text
    | some t ↦
        if is_text_part (get_str j item "type")
        then text ++ ((if is_empty text then [] else 32 ∷ []) ++ codes t)
        else text
  ]

  unfoldable pub push_parts : Bytes → List V → Bytes
  push_parts text [] = text
  push_parts text (item ∷ items) = push_parts (push_part text item) items

  unfoldable pub text_of : V → Bytes
  text_of content = elim (j.as_str content) [
    | some s ↦ codes s
    | none ↦ push_parts [] (unwrap_or (j.as_array content) [])
  ]

  unfoldable pub relevance_query_from_message : (Bytes → Bytes) → V → Bytes
  relevance_query_from_message trim message = elim (j.get message "content") [
    | none ↦ []
    | some content ↦ truncate_on_char_boundary (trim (text_of content)) 512
  ]
