-- ===== src/LiveZone/Compressors.antt =====
-- live_zone.rs: the log, search and diff compressors that the dispatch calls, with their default
-- configurations and no store. `D` is the type of the bias, and `bias` its value 0.
use lm_resizer.Base.{true, false, none, [], Bytes}
use lm_resizer.Log.{LogCompressorConfig}
use lm_resizer.Log.Compress as LogCompress
use lm_resizer.Search.{SearchCompressorConfig}
use lm_resizer.Search.Compress as SearchCompress
use lm_resizer.Diff.{DiffCompressorConfig}
use lm_resizer.Diff.Compress as DiffCompress
use lm_resizer.LiveZone.Dispatch.{Services}

abbrev pub log_default : LogCompressorConfig
log_default = record {
  max_errors = 10;
  error_context_lines = 3;
  keep_first_error = true;
  keep_last_error = true;
  max_stack_traces = 3;
  stack_trace_max_lines = 20;
  max_warnings = 5;
  dedupe_warnings = true;
  keep_summary_lines = true;
  max_total_lines = 100;
  enable_ccr = true;
  min_lines_for_ccr = 50;
}

abbrev pub search_default : SearchCompressorConfig
search_default = record {
  max_matches_per_file = 5;
  always_keep_first = true;
  always_keep_last = true;
  max_total_matches = 30;
  max_files = 15;
  context_keywords = [];
  boost_errors = true;
  enable_ccr = true;
  min_matches_for_ccr = 10;
  group_by_file = false;
}

abbrev pub diff_default : DiffCompressorConfig
diff_default = record {
  max_context_lines = 2;
  max_hunks_per_file = 10;
  max_files = 20;
  enable_ccr = true;
  min_lines_for_ccr = 50;
}

module _ {F D S : Type 0} (bias : D) (log : LogCompress.Outside F D S)
    (search : SearchCompress.Outside F D S) (diff : DiffCompress.Outside F S) where
  unfoldable pub log_compressor : Bytes → Bytes
  log_compressor text =
      (LogCompress.compress_with_store log log_default text bias none).0.compressed

  unfoldable pub search_compressor : Bytes → Bytes → Bytes
  search_compressor text query =
      (SearchCompress.compress_with_store search search_default text query bias none).0.compressed

  unfoldable pub diff_compressor : Bytes → Bytes → Bytes
  diff_compressor text query =
      (DiffCompress.compress_with_store diff diff_default text query none).0.compressed

  -- The services of the dispatch with these compressors.
  unfoldable pub with_compressors : Services S → Services S
  with_compressors services = record services {
    compress_log = log_compressor;
    compress_search = search_compressor;
    compress_diff = diff_compressor;
  }
