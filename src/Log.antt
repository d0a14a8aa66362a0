-- ===== src/Log.antt =====
-- crates/lm-resizer-core/src/transforms/log_compressor.rs: the data. `F` is the type of the `f32`
-- scores.
pub mod Patterns
pub mod Lines
pub mod Select
pub mod Compress
use lm_resizer.Base.{ℕ, Bool, true, false, Option, List, Bytes}

pub data LogFormat : Type 0 where
  pytest : LogFormat
  npm : LogFormat
  cargo : LogFormat
  jest : LogFormat
  make : LogFormat
  generic : LogFormat

pub data LogLevel : Type 0 where
  error : LogLevel
  fail : LogLevel
  warn : LogLevel
  info : LogLevel
  debug : LogLevel
  trace : LogLevel
  unknown : LogLevel

pub record LogLine (F : Type 0) : Type 0 where
  pub line_number : ℕ
  pub content : Bytes
  pub level : LogLevel
  pub is_stack_trace : Bool
  pub is_summary : Bool
  pub score : F

-- The ratio that is asked of the compression is left out: its test is a parameter.
pub record LogCompressorConfig : Type 0 where
  pub max_errors : ℕ
  pub error_context_lines : ℕ
  pub keep_first_error : Bool
  pub keep_last_error : Bool
  pub max_stack_traces : ℕ
  pub stack_trace_max_lines : ℕ
  pub max_warnings : ℕ
  pub dedupe_warnings : Bool
  pub keep_summary_lines : Bool
  pub max_total_lines : ℕ
  pub enable_ccr : Bool
  pub min_lines_for_ccr : ℕ

-- The counts that the map `stats` has, under the names of its keys.
pub record OutputStats : Type 0 where
  pub errors : ℕ
  pub fails : ℕ
  pub warnings : ℕ
  pub infos : ℕ
  pub total : ℕ
  pub selected : ℕ

pub record LogCompressionResult : Type 0 where
  pub compressed : Bytes
  pub original : Bytes
  pub original_line_count : ℕ
  pub compressed_line_count : ℕ
  pub format_detected : LogFormat
  pub cache_key : Option Bytes
  pub stats : Option OutputStats

pub data SkipReason : Type 0 where
  ratio_too_high : SkipReason
  no_store : SkipReason
  ccr_disabled : SkipReason

pub record LogCompressorStats : Type 0 where
  pub format : Option LogFormat
  pub stack_traces_seen : ℕ
  pub stack_traces_kept : ℕ
  pub warnings_dropped_by_dedupe : ℕ
  pub lines_dropped_by_global_cap : ℕ
  pub ccr_emitted : Bool
  pub ccr_skip_reason : Option SkipReason

-- The equality that is derived for levels.
abbrev pub same_level : LogLevel → LogLevel → Bool
same_level error error = true
same_level fail fail = true
same_level warn warn = true
same_level info info = true
same_level debug debug = true
same_level trace trace = true
same_level unknown unknown = true
same_level l k = false
