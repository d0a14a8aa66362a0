-- ===== src/Diff.antt =====
-- crates/lm-resizer-core/src/transforms/diff_compressor.rs: the data. Lines are lists of bytes, and
-- `F` is the type of the `f64` scores.
pub mod Patterns
pub mod Parse
pub mod Select
pub mod Context
pub mod Compress
use lm_resizer.Base.{ℕ, Bool, Option, List, Bytes}

pub record DiffHunk (F : Type 0) : Type 0 where
  pub header : Bytes
  pub lines : List Bytes
  pub additions : ℕ
  pub deletions : ℕ
  pub context_lines : ℕ
  pub score : F

pub record DiffFile (F : Type 0) : Type 0 where
  pub header : Bytes
  pub old_file : Bytes
  pub new_file : Bytes
  pub hunks : List (DiffHunk F)
  pub is_binary : Bool
  pub is_new_file : Bool
  pub is_deleted_file : Bool
  pub is_renamed : Bool
  pub rename_lines : List Bytes
  pub original_new_file_mode_line : Option Bytes
  pub original_deleted_file_mode_line : Option Bytes
  pub original_binary_line : Option Bytes

pub record ParsedDiff (F : Type 0) : Type 0 where
  pub pre_diff_lines : List Bytes
  pub files : List (DiffFile F)

-- The two flags that the code reserves and never reads are left out, and so is the ratio, whose test
-- is a parameter.
pub record DiffCompressorConfig : Type 0 where
  pub max_context_lines : ℕ
  pub max_hunks_per_file : ℕ
  pub max_files : ℕ
  pub enable_ccr : Bool
  pub min_lines_for_ccr : ℕ

pub record DiffCompressionResult : Type 0 where
  pub compressed : Bytes
  pub original_line_count : ℕ
  pub compressed_line_count : ℕ
  pub files_affected : ℕ
  pub additions : ℕ
  pub deletions : ℕ
  pub hunks_kept : ℕ
  pub hunks_removed : ℕ
  pub cache_key : Option Bytes
