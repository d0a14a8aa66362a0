-- ===== src/LiveZone/Manifest.antt =====
-- live_zone.rs: what is read off a manifest.
pub mod Saved
use lm_resizer.Base.{
  ℕ, ◌+◌, ◌-◌, Bool, true, false, ◌||◌, List, [], ◌∷◌, ◌++◌, any, Bytes, codes, bytes_eq,
  if◌then◌else◌,
}
use lm_resizer.LiveZone.{
  BlockAction, no_compression_applied, compressed, compressor_error, rejected_not_smaller,
  below_byte_threshold, excluded, BlockOutcome, CompressionManifest,
}

abbrev pub is_compressed : BlockAction → Bool
is_compressed (compressed strategy b c t u) = true
is_compressed action = false

unfoldable pub has_compressed_block : CompressionManifest → Bool
has_compressed_block m = any (λ o. is_compressed o.action) m.block_outcomes

abbrev pub saved_by : BlockAction → ℕ
saved_by (compressed strategy original_bytes compressed_bytes original_tokens compressed_tokens) =
    original_tokens - compressed_tokens
saved_by action = 0

unfoldable pub saved_by_all : List BlockOutcome → ℕ
saved_by_all [] = 0
saved_by_all (o ∷ os) = saved_by o.action + saved_by_all os

unfoldable pub tokens_saved : CompressionManifest → ℕ
tokens_saved m = saved_by_all m.block_outcomes

abbrev pub see : BlockAction → List Bytes → List Bytes
see (compressed strategy b c t u) seen =
    if any (bytes_eq strategy) seen then seen else seen ++ (strategy ∷ [])
see action seen = seen

unfoldable pub strategies : List Bytes → List BlockOutcome → List Bytes
strategies seen [] = seen
strategies seen (o ∷ os) = strategies (see o.action seen) os

unfoldable pub transforms_applied : CompressionManifest → List Bytes
transforms_applied m = strategies [] m.block_outcomes

abbrev pub is_compressor_error : BlockAction → Bool
is_compressor_error (compressor_error strategy error) = true
is_compressor_error action = false

abbrev pub is_rejected : BlockAction → Bool
is_rejected (rejected_not_smaller strategy b c t u) = true
is_rejected action = false

abbrev pub is_below_output_floor : BlockAction → Bool
is_below_output_floor (below_byte_threshold content_type n threshold) =
    bytes_eq content_type (codes "output_item")
is_below_output_floor action = false

abbrev pub is_below_threshold : BlockAction → Bool
is_below_threshold (below_byte_threshold content_type n threshold) = true
is_below_threshold action = false

abbrev pub is_excluded : BlockAction → Bool
is_excluded (excluded reason) = true
is_excluded action = false

abbrev pub is_no_compression : BlockAction → Bool
is_no_compression (no_compression_applied content_type) = true
is_no_compression action = false

abbrev pub saw : (BlockAction → Bool) → List BlockOutcome → Bool
saw is os = any (λ o. is o.action) os

-- Where no output is below its floor, a block below a threshold is plain text.
unfoldable pub reason_for : List BlockOutcome → Bytes
reason_for [] = codes "no_eligible_items"
reason_for (o ∷ os) =
    let seen : (BlockAction → Bool) → Bool = λ is. saw is (o ∷ os) in
    if seen is_compressor_error
    then codes "compressor_error"
    else if seen is_rejected
    then codes "rejected_not_smaller"
    else if seen is_below_output_floor
    then codes "below_output_floor"
    else if seen is_below_threshold
    then codes "below_plain_text_floor"
    else if seen is_excluded
    then codes "excluded_live_zone"
    else if seen is_no_compression
    then codes "no_compressible_content"
    else codes "no_change"

unfoldable pub summarize_openai_responses_no_change_reason : CompressionManifest → Bytes
summarize_openai_responses_no_change_reason m = reason_for m.block_outcomes
