-- ===== src/Tags/Protect.antt =====
-- `protect_tags` and `restore_tags`. The log line of a lost placeholder is left out.
pub mod Pieces
pub mod Prefix
pub mod Restore
pub mod RoundTrip
use lm_resizer.Base.{
  ℕ, zero, suc, ◌+◌, ◌-◌, Bool, true, false, ◌||◌, not, Option, none, some, List, [], ◌∷◌, ◌++◌,
  length, take, drop, Bytes, codes, contains, is_empty, ltb, if◌then◌else◌, any, ◌==◌,
}
use lm_resizer.Base.Decimal.{decimal}
use lm_resizer.Base.Search.{replace}
use lm_resizer.Tags.Spans.{ProtectStats, Span, Walk, slice, identify_spans}

abbrev pub default_prefix : Bytes
default_prefix = codes "{{lm-resizer_TAG_"

abbrev pub placeholder_suffix : Bytes
placeholder_suffix = codes "}}"

abbrev pub fallback_prefix : Bytes
fallback_prefix = codes "{{lm-resizer_TAG_FALLBACK_a4f1c7e2_"

-- `format!("{{{{lm-resizer_TAG_{salt}_")`.
unfoldable pub salted_prefix : ℕ → Bytes
salted_prefix salt = default_prefix ++ (decimal salt ++ codes "_")

-- `for salt in salt..16`, with the number of rounds left.
unfoldable pub pick_salted : ℕ → ℕ → Bytes → Bytes
pick_salted zero salt text = fallback_prefix
pick_salted (suc rounds) salt text =
    let further = pick_salted rounds (salt + 1) text in
    if not (contains (salted_prefix salt) text) then salted_prefix salt else further

unfoldable pub pick_placeholder_prefix : Bytes → Bytes × Bool
pick_placeholder_prefix text =
    if not (contains default_prefix text)
    then (default_prefix, false)
    else (pick_salted 16 0 text, true)

abbrev pub Blocks : Type 0
Blocks = List (Bytes × Bytes)

-- `format!("{prefix}{counter}{PLACEHOLDER_SUFFIX}")`.
unfoldable pub placeholder : Bytes → ℕ → Bytes
placeholder prefix counter = prefix ++ (decimal counter ++ placeholder_suffix)

-- The loop of `emit_output`, and the text after the last span.
unfoldable pub emit_from :
    Bytes → Bytes → ℕ → ℕ → List Span → Bytes → Blocks → Option (Bytes × Blocks)
emit_from text prefix counter cursor [] out blocks = some (out ++ drop cursor text, blocks)
emit_from text prefix counter cursor (span ∷ spans) out blocks =
    if ltb span.start cursor
    then none
    else emit_from text prefix (counter + 1) span.end spans
        (out ++ (slice text cursor span.start ++ placeholder prefix counter))
        (blocks ++ (placeholder prefix counter, slice text span.start span.end) ∷ [])

unfoldable pub emit_output : Bytes → List Span → Bytes → Option (Bytes × Blocks)
emit_output text spans prefix = emit_from text prefix 0 0 spans [] []

pub record Protected : Type 0 where
  pub cleaned : Bytes
  pub blocks : Blocks
  pub stats : ProtectStats

abbrev pub no_stats : ProtectStats
no_stats = record {
  tags_seen = 0;
  html_tags_skipped = 0;
  custom_blocks_protected = 0;
  self_closing_protected = 0;
  orphan_closes = 0;
  placeholder_collision_avoided = false;
}

-- The `match` on `emit_output`: what it gives, or the text itself.
unfoldable pub protected_or_text : Bytes → ProtectStats → Option (Bytes × Blocks) → Protected
protected_or_text text stats (some (cleaned, blocks)) = record {
  cleaned = cleaned;
  blocks = blocks;
  stats = stats;
}
protected_or_text text stats none = record { cleaned = text; blocks = []; stats = stats }

-- `none` means that the walk ran out of fuel, which it does not.
unfoldable pub protect_walk : Bytes → Bytes → Option Walk → Option Protected
protect_walk text prefix none = none
protect_walk text prefix (some w) =
    some (protected_or_text text w.stats (emit_output text w.spans prefix))

unfoldable pub protect_tags : Bytes → Bool → Option Protected
protect_tags text compress_tagged_content =
    if not (any (λ b. b == b'<') text)
    then some (record { cleaned = text; blocks = []; stats = no_stats })
    else let (prefix, salted) = pick_placeholder_prefix text in
      protect_walk text prefix (
        identify_spans text compress_tagged_content
          (record no_stats { placeholder_collision_avoided = salted }))

unfoldable pub restore_tags : Bytes → Blocks → Bytes
restore_tags result [] = result
restore_tags result ((ph, original) ∷ blocks) =
    restore_tags (if contains ph result then replace ph original result else result) blocks
