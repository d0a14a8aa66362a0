-- ===== src/Search.antt =====
-- crates/lm-resizer-core/src/transforms/search_compressor.rs: the data. `F` is the type of the `f32`
-- scores.
pub mod Parse
pub mod Select
pub mod Compress
use lm_resizer.Base.{ℕ, Bool, Option, List, [], Bytes}
use lm_resizer.Base.TreeMap.{TreeMap}

pub record SearchMatch (F : Type 0) : Type 0 where
  pub file : Bytes
  pub line_number : ℕ
  pub content : Bytes
  pub score : F

pub record FileMatches (F : Type 0) : Type 0 where
  pub file : Bytes
  pub matches : List (SearchMatch F)

abbrev pub Files : Type 0 → Type 0
Files F = TreeMap (FileMatches F)

-- The ratio that is asked of the compression is left out: its test is a parameter.
pub record SearchCompressorConfig : Type 0 where
  pub max_matches_per_file : ℕ
  pub always_keep_first : Bool
  pub always_keep_last : Bool
  pub max_total_matches : ℕ
  pub max_files : ℕ
  pub context_keywords : List Bytes
  pub boost_errors : Bool
  pub enable_ccr : Bool
  pub min_matches_for_ccr : ℕ
  pub group_by_file : Bool

pub record SearchCompressionResult : Type 0 where
  pub compressed : Bytes
  pub original : Bytes
  pub original_match_count : ℕ
  pub compressed_match_count : ℕ
  pub files_affected : ℕ
  pub cache_key : Option Bytes
  pub summaries : TreeMap Bytes

pub data SkipReason : Type 0 where
  below_min_matches : SkipReason
  ratio_too_high : SkipReason
  no_store : SkipReason
  ccr_disabled : SkipReason

pub record SearchCompressorStats : Type 0 where
  pub lines_scanned : ℕ
  pub lines_unparsed : ℕ
  pub files_dropped : ℕ
  pub matches_dropped_by_per_file_cap : ℕ
  pub matches_dropped_by_global_cap : ℕ
  pub ccr_emitted : Bool
  pub ccr_skip_reason : Option SkipReason

-- crates/lm-resizer-core/src/signals/line_importance.rs.
pub data ImportanceCategory : Type 0 where
  error : ImportanceCategory
  warning : ImportanceCategory
  importance : ImportanceCategory
  security : ImportanceCategory
  markdown : ImportanceCategory
