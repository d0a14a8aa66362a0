-- ===== src/LiveZone.antt =====
-- crates/lm-resizer-core/src/transforms/live_zone.rs: the data, and the table of thresholds.
pub mod Manifest
pub mod Splice
pub mod Plan
pub mod Dispatch
pub mod Query
pub mod Run
pub mod OpenAi
pub mod Compressors
use lm_resizer.Base.{ℕ, Option, List, Bytes, codes}
use lm_resizer.Pipeline.{
  ContentType, json_array, source_code, search_results, build_output, git_diff, html, plain_text,
}

-- The reasons that the code gives for a block.
pub data ExclusionReason : Type 0 where
  below_frozen_floor : ExclusionReason
  above_live_zone : ExclusionReason
  hot_zone_block_type : ExclusionReason

pub data BlockAction : Type 0 where
  -- The content type.
  no_compression_applied : Bytes → BlockAction
  -- The strategy, the bytes before and after, and the tokens before and after.
  compressed : Bytes → ℕ → ℕ → ℕ → ℕ → BlockAction
  -- The strategy and the error.
  compressor_error : Bytes → Bytes → BlockAction
  -- As for `compressed`.
  rejected_not_smaller : Bytes → ℕ → ℕ → ℕ → ℕ → BlockAction
  -- The content type, the bytes, and the threshold.
  below_byte_threshold : Bytes → ℕ → ℕ → BlockAction
  excluded : ExclusionReason → BlockAction

pub record BlockOutcome : Type 0 where
  pub message_index : ℕ
  pub block_index : Option ℕ
  pub block_type : Bytes
  pub action : BlockAction

pub record CompressionManifest : Type 0 where
  pub messages_total : ℕ
  pub messages_below_frozen_floor : ℕ
  pub latest_user_message_index : Option ℕ
  pub block_outcomes : List BlockOutcome

pub data LiveZoneError : Type 0 where
  body_not_json : LiveZoneError
  no_messages_array : LiveZoneError

-- `Result<LiveZoneOutcome, LiveZoneError>`, and the panic of a slice out of range.
pub data LiveZoneResult : Type 0 where
  failed : LiveZoneError → LiveZoneResult
  no_change : CompressionManifest → LiveZoneResult
  modified : Bytes → CompressionManifest → LiveZoneResult
  panicked : LiveZoneResult

-- `ContentType::as_str`.
abbrev pub type_name : ContentType → Bytes
type_name json_array = codes "json_array"
type_name source_code = codes "source_code"
type_name search_results = codes "search"
type_name build_output = codes "build"
type_name git_diff = codes "diff"
type_name html = codes "html"
type_name plain_text = codes "text"

abbrev pub threshold_for : ContentType → ℕ
threshold_for json_array = 512
threshold_for build_output = 512
threshold_for search_results = 512
threshold_for git_diff = 512
threshold_for source_code = 512
threshold_for plain_text = 512
threshold_for html = 512
