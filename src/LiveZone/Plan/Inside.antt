-- ===== src/LiveZone/Plan/Inside.antt =====
-- live_zone.rs: the ranges of a plan lie in the message, in order and apart.
use lm_resizer.Base.{
  ℕ, suc, ◌+◌, ◌≤◌, ◌≡◌, refl, sym, subst, ◌⊎◌, inl, inr, Option, none, some, List, [], ◌∷◌, length,
  Bytes, arith,
}
use lm_resizer.Base.OnSome.{OnSome, OnSome-bind, OnSome-at, OnSome-map, if_holds}
use lm_resizer.LiveZone.Splice.Kept.{Chain, Chain-lower, Chain-upper}
use lm_resizer.LiveZone.Plan.{
  RawValue, Views, SlotKind, compressible, string_content, hot_zone, PlanSlot, bytes_offset_of,
  is_string, is_hot, body_value, block_type_of, field_slot, block_slot, plan_blocks, plan_content,
  plan_some,
}

abbrev pub end_of : RawValue → ℕ
end_of raw = raw.start + length raw.text

-- Values that follow each other from `lo` on.
abbrev pub RawApart : ℕ → List RawValue → Type 0
RawApart lo [] = Unit
RawApart lo (raw ∷ raws) = (lo ≤ raw.start) × RawApart (end_of raw) raws

-- The elements of an array follow each other.
abbrev pub ElementsApart : Views → Type 0
ElementsApart v =
    (content : RawValue) (blocks : List RawValue)
    → v.elements content ≡ some blocks
    → RawApart content.start blocks

abbrev pub Within : ℕ → ℕ → ℕ × ℕ → Type 0
Within lo hi range = (lo ≤ range.0) × (range.0 ≤ range.1) × (range.1 ≤ hi)

abbrev pub KindWithin : ℕ → ℕ → SlotKind → Type 0
KindWithin lo hi (compressible block_type text range) = Within lo hi range
KindWithin lo hi (string_content text range) = Within lo hi range
KindWithin lo hi (hot_zone block_type) = Unit

abbrev pub add_range : SlotKind → List (ℕ × ℕ) → List (ℕ × ℕ)
add_range (compressible block_type text range) ranges = range ∷ ranges
add_range (string_content text range) ranges = range ∷ ranges
add_range (hot_zone block_type) ranges = ranges

abbrev pub slot_ranges : List PlanSlot → List (ℕ × ℕ)
slot_ranges [] = []
slot_ranges (slot ∷ slots) = add_range slot.kind (slot_ranges slots)

bytes_offset_of_lem :
    (parent child : RawValue) (off : ℕ)
    → bytes_offset_of parent child ≡ some off
    → (parent.start + off ≡ child.start) × (end_of child ≤ end_of parent)
unfolding bytes_offset_of
bytes_offset_of_lem parent child off h = ground (arith, h)

KindWithin-lower :
    (lo low hi : ℕ) (kind : SlotKind) → low ≤ lo → KindWithin lo hi kind → KindWithin low hi kind
KindWithin-lower lo low hi (compressible block_type text range) h (a, b, c) =
    (omega (arith, h, a), b, c)
KindWithin-lower lo low hi (string_content text range) h (a, b, c) = (omega (arith, h, a), b, c)
KindWithin-lower lo low hi (hot_zone block_type) h k = tt

add_range-Chain :
    (lo mid hi : ℕ) (kind : SlotKind) (ranges : List (ℕ × ℕ))
    → lo ≤ mid
    → KindWithin lo mid kind
    → Chain mid hi ranges
    → Chain lo hi (add_range kind ranges)
add_range-Chain lo mid hi (compressible block_type text range) ranges h (a, b, c) chain =
    (a, b, Chain-lower mid range.1 hi ranges c chain)
add_range-Chain lo mid hi (string_content text range) ranges h (a, b, c) chain =
    (a, b, Chain-lower mid range.1 hi ranges c chain)
add_range-Chain lo mid hi (hot_zone block_type) ranges h k chain =
    Chain-lower mid lo hi ranges h chain

module _ (v : Views) where
  field_slot-Within :
      (block_type : Bytes) (block : RawValue) (field : Option RawValue)
      → OnSome
          (KindWithin block.start (end_of block))
          (field_slot v block_type block block.start field)
  unfolding field_slot
  field_slot-Within block_type block none = omega arith
  field_slot-Within block_type block (some field) =
      OnSome-bind (KindWithin block.start (end_of block)) (bytes_offset_of block field) _ (λ off e.
        let (at, inside) = bytes_offset_of_lem block field off e in
        if_holds (OnSome (KindWithin block.start (end_of block))) (is_string field.text) _ _
          (OnSome-bind (KindWithin block.start (end_of block)) (v.string field.text) _
            (λ unescaped e'. omega (arith, at, inside)))
          (omega arith))

  block_slot-Within :
      (block : RawValue)
      → OnSome (KindWithin block.start (end_of block)) (block_slot v block block.start)
  unfolding block_slot
  block_slot-Within block =
      OnSome-bind (KindWithin block.start (end_of block)) (v.header block) _ (λ (type, content) e.
        if_holds (OnSome (KindWithin block.start (end_of block)))
          (is_hot (block_type_of v block type)) _ _ tt
          (OnSome-bind (KindWithin block.start (end_of block)) _ _
            (λ field e'. field_slot-Within (block_type_of v block type) block field)))

  plan_blocks-Chain :
      (content : RawValue) (i lo : ℕ) (blocks : List RawValue)
      → RawApart lo blocks
      → lo ≤ end_of content
      → OnSome
          (λ slots. Chain lo (end_of content) (slot_ranges slots))
          (plan_blocks v content content.start i blocks)
  unfolding plan_blocks
  plan_blocks-Chain content i lo [] apart h = h
  plan_blocks-Chain content i lo (block ∷ blocks) (a, apart) h =
      OnSome-bind _ (bytes_offset_of content block) _ (λ off e.
        let (at, inside) = bytes_offset_of_lem content block off e in
        OnSome-bind _ (block_slot v block (content.start + off)) _ (λ kind e'.
          OnSome-bind _ (plan_blocks v content content.start (suc i) blocks) _ (λ slots e''.
            add_range-Chain lo (end_of block) (end_of content) kind (slot_ranges slots)
              (omega (arith, a))
              (KindWithin-lower block.start lo (end_of block) kind a (
                OnSome-at (KindWithin block.start (end_of block)) _ kind
                  (subst
                    (λ n. OnSome (KindWithin block.start (end_of block)) (block_slot v block n))
                    (sym at) (block_slot-Within block))
                  e'))
              (OnSome-at (λ more. Chain (end_of block) (end_of content) (slot_ranges more)) _ slots
                (plan_blocks-Chain content (suc i) (end_of block) blocks apart inside) e''))))

  pub plan_content-Chain :
      (content : RawValue)
      → ElementsApart v
      → OnSome
          (λ slots. Chain content.start (end_of content) (slot_ranges slots))
          (plan_content v content content.start)
  unfolding plan_content
  plan_content-Chain content apart =
      if_holds (OnSome (λ slots. Chain content.start (end_of content) (slot_ranges slots)))
        (is_string content.text) _ _
        (OnSome-bind (λ slots. Chain content.start (end_of content) (slot_ranges slots))
          (v.string content.text) _ (λ unescaped e. omega arith))
        (OnSome-bind (λ slots. Chain content.start (end_of content) (slot_ranges slots))
          (v.elements content) _
          (λ blocks e.
            plan_blocks-Chain content 0 content.start blocks (apart content blocks e)
              (omega arith)))

  -- The plan of a message has its ranges in the message, which is in the body.
  pub plan_some-Chain :
      (body : Bytes) (message : RawValue) (content : Option RawValue)
      → ElementsApart v
      → OnSome
          (λ slots.
            (slots ≡ [])
            ⊎ (Chain message.start (end_of message) (slot_ranges slots)
                × (end_of message ≤ length body)))
          (plan_some v body message content)
  unfolding plan_some
  plan_some-Chain body message none apart = inl refl
  plan_some-Chain body message (some content) apart =
      OnSome-bind _ (bytes_offset_of message content) _ (λ in_message e.
        OnSome-bind _ (bytes_offset_of (body_value body) message) _ (λ in_body e'.
          let (at, inside) = bytes_offset_of_lem message content in_message e in
          let (at', inside') = bytes_offset_of_lem (body_value body) message in_body e' in
          let there : content.start ≡ in_body + in_message = omega (arith, at, at') in
          OnSome-map (λ slots. Chain content.start (end_of content) (slot_ranges slots)) _
            (plan_content v content (in_body + in_message))
            (λ slots chain. inr (
              Chain-lower content.start message.start (end_of message) (slot_ranges slots)
                  (omega (arith, at))
                  (Chain-upper content.start (end_of content) (end_of message) (slot_ranges slots)
                    inside chain),
              omega (arith, inside'),
            ))
            (subst
              (λ n.
                OnSome (λ slots. Chain content.start (end_of content) (slot_ranges slots))
                  (plan_content v content n))
              there (plan_content-Chain content apart))))
