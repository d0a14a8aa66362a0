-- ===== src/Log/Compress.antt =====
-- log_compressor.rs: `format_output` and `compress_with_store`. `S` is the store.
pub mod Original
use lm_resizer.Base.{
  ℕ, ◌+◌, ◌-◌, Bool, true, false, ◌&&◌, not, Option, none, some, List, [], ◌∷◌, ◌++◌, map, length,
  Bytes, codes, ltb, leb, if◌then◌else◌,
}
use lm_resizer.Base.Decimal.{decimal}
use lm_resizer.Base.Lines.{split_lines, join}
use lm_resizer.Sizer.{Floats, Texts}
use lm_resizer.Log.{
  LogFormat, generic, LogLevel, error, fail, warn, info, LogLine, LogCompressorConfig, OutputStats,
  LogCompressionResult, SkipReason, ratio_too_high, no_store, ccr_disabled, LogCompressorStats,
}
use lm_resizer.Log.Patterns.{Matchers, detect}
use lm_resizer.Log.Lines.{Scores, parse_lines}
use lm_resizer.Log.Select.{of_level, select_lines}

pub record Outside (F D S : Type 0) : Type 0 where
  pub scores : Scores F
  pub matchers : Matchers
  pub floats : Floats D
  pub texts : Texts
  -- The ratio of two lengths is no better than the configuration asks.
  pub ratio_too_high : ℕ → ℕ → Bool
  pub md5_hex_24 : Bytes → Bytes
  pub put : S → Bytes → Bytes → S

unfoldable pub new_stats : LogCompressorStats
new_stats = record {
  format = none;
  stack_traces_seen = 0;
  stack_traces_kept = 0;
  warnings_dropped_by_dedupe = 0;
  lines_dropped_by_global_cap = 0;
  ccr_emitted = false;
  ccr_skip_reason = none;
}

module _ {F : Type 0} where
  unfoldable pub count_level : List (LogLine F) → LogLevel → ℕ
  count_level lines level = length (of_level level lines)

  unfoldable pub output_stats : List (LogLine F) → List (LogLine F) → OutputStats
  output_stats selected all_lines = record {
    errors = count_level all_lines error;
    fails = count_level all_lines fail;
    warnings = count_level all_lines warn;
    infos = count_level all_lines info;
    total = length all_lines;
    selected = length selected;
  }

-- `format!("{} {}", n, label)`, where there are such lines.
unfoldable pub add_part : ℕ → Bytes → List Bytes → List Bytes
add_part n label parts = if ltb 0 n then (decimal n ++ (32 ∷ label)) ∷ parts else parts

unfoldable pub summary_parts : OutputStats → List Bytes
summary_parts stats = add_part stats.errors (codes "ERROR") (
    add_part stats.fails (codes "FAIL")
      (add_part stats.warnings (codes "WARN") (add_part stats.infos (codes "INFO") [])))

-- What is said of the lines left out: nothing, where none of them has a level that is counted.
unfoldable pub omitted_line : ℕ → List Bytes → List Bytes
omitted_line omitted [] = []
omitted_line omitted (part ∷ parts) =
    if ltb 0 omitted
    then (codes "["
        ++ (decimal omitted
            ++ (codes " lines omitted: " ++ (join (codes ", ") (part ∷ parts) ++ codes "]"))))
      ∷ []
    else []

module _ {F : Type 0} where
  unfoldable pub output_lines : List (LogLine F) → List (LogLine F) → List Bytes
  output_lines selected all_lines =
      map (λ l. l.content) selected
      ++ omitted_line (length all_lines - length selected)
          (summary_parts (output_stats selected all_lines))

  unfoldable pub format_output : List (LogLine F) → List (LogLine F) → Bytes × OutputStats
  format_output selected all_lines =
      (join (10 ∷ []) (output_lines selected all_lines), output_stats selected all_lines)

module _ {F D S : Type 0} (o : Outside F D S) (config : LogCompressorConfig) where
  abbrev pub unchanged : Bytes → LogCompressionResult
  unchanged content = record {
    compressed = content;
    original = content;
    original_line_count = length (split_lines content);
    compressed_line_count = length (split_lines content);
    format_detected = generic;
    cache_key = none;
    stats = none;
  }

  unfoldable pub marker : ℕ → ℕ → Bytes → Bytes
  marker original_line_count selected key =
      10 ∷ codes "["
      ++ (decimal original_line_count
          ++ (codes " lines compressed to "
              ++ (decimal selected ++ (codes ". Retrieve more: hash=" ++ (key ++ codes "]")))))

  -- The store: a key and a marker, or the reason why there is none.
  unfoldable pub emit_key :
      LogCompressionResult
      → LogCompressorStats
      → Option S
      → LogCompressionResult × LogCompressorStats × Option S
  emit_key r stats store =
      let key = o.md5_hex_24 r.original in
      let skip : SkipReason → LogCompressionResult × LogCompressorStats × Option S =
        λ why. (r, record stats { ccr_skip_reason = some why }, store) in
      if not config.enable_ccr
      then skip ccr_disabled
      else if o.ratio_too_high (length r.compressed) (length r.original)
      then skip ratio_too_high
      else elim store [
        | none ↦ skip no_store
        | some s ↦ (
          record r {
            compressed = r.compressed ++ marker r.original_line_count r.compressed_line_count key;
            cache_key = some key;
          },
          record stats { ccr_emitted = true },
          some (o.put s key r.original),
        )
      ]

  abbrev pub selection : Bytes → D → List (LogLine F) × LogCompressorStats
  selection content bias =
      select_lines o.scores o.matchers o.floats o.texts config
        (parse_lines o.scores o.matchers config (split_lines content)) bias
        (record new_stats { format = some (detect o.matchers (split_lines content)) })

  -- The result without its key.
  unfoldable pub compress_lines : Bytes → D → LogCompressionResult
  compress_lines content bias =
      let log_lines = parse_lines o.scores o.matchers config (split_lines content) in
      let selected = (selection content bias).0 in
      let (body, stats) = format_output selected log_lines in
      record {
        compressed = body;
        original = content;
        original_line_count = length (split_lines content);
        compressed_line_count = length selected;
        format_detected = detect o.matchers (split_lines content);
        cache_key = none;
        stats = some stats;
      }

  unfoldable pub compress_with_store :
      Bytes → D → Option S → LogCompressionResult × LogCompressorStats × Option S
  compress_with_store content bias store =
      if ltb (length (split_lines content)) config.min_lines_for_ccr
      then (unchanged content, new_stats, store)
      else emit_key (compress_lines content bias) (selection content bias).1 store
