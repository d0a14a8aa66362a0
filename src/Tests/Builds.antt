-- ===== src/Tests/Builds.antt =====
-- Runs of the log compressor.
use lm_resizer.Base.{
  ℕ, ◌+◌, ◌*◌, ◌≤◌, ◌<◌, ◌≡◌, ◌↔◌, refl, true, some, List, [], ◌∷◌, map, length, get_elem?, All,
  Bytes, codes, starts_with, contains, is_ascii_whitespace, ltb, min, if◌then◌else◌, arith,
}
use lm_resizer.Base.Lines.{join, split_lines}
use lm_resizer.Base.Sort.{sort_by, insert_sorted}
use lm_resizer.Base.TreeSet.{add, add_all}
use lm_resizer.Base.TreeSet.Laws.{IsStrict, HasKey}
use lm_resizer.Tests.Searches.{floats, texts}
use lm_resizer.Log.{error, LogCompressorConfig}
use lm_resizer.Log.Patterns.{
  Matchers, is_word_boundary, first_level, classify, is_python_file_frame, is_js_at_frame,
  is_java_at_frame, has_line_col_suffix, is_go_frame, flavor_for, terminates, is_summary_line,
}
use lm_resizer.Log.Lines.{
  Scores, score_log_line, open_trace, step_trace, classified, parse_from, parse_lines,
}
use lm_resizer.Log.Select.{
  number, stack_runs, push_line, fill_lines, others, context_of, context_indices, add_context_line,
  add_context, with_context, add_stacks, dedupe_from, dedupe_similar, first_and_last,
  select_with_first_last, select_by_level, select_by_kind, selected_with_context,
}
use lm_resizer.Log.Select.Near.{Near}
use lm_resizer.Log.Compress.{Outside, selection}
use lm_resizer.Log.Compress.Original.{selection_lem, selected_with_context_iff}

abbrev trim_start : Bytes → Bytes
trim_start [] = []
trim_start (c ∷ s) = let rest = trim_start s in if is_ascii_whitespace c then rest else c ∷ s

abbrev matchers : Matchers
matchers = record {
  has_marker = λ format line. contains (codes "Compiling ") line;
  level_words = λ line. if starts_with (codes "error") line then (0, 5, error) ∷ [] else [];
  trim_start = trim_start;
  starts_uppercase = λ s. contains (codes "E") s;
  replace_digits = λ s. s;
  replace_hex = λ s. s;
  replace_paths = λ s. s;
}

abbrev scores : Scores ℕ
scores = record {
  hundredths = λ n. n;
  add = λ a b. a + b;
  min_one = min 100;
  greater = λ a b. ltb b a;
}

abbrev outside : Outside ℕ ℕ (List (Bytes × Bytes))
outside = record {
  scores = scores;
  matchers = matchers;
  floats = floats;
  texts = texts;
  ratio_too_high = λ a b. ltb b (a * 2);
  md5_hex_24 = λ s. codes "key";
  put = λ s k v. (k, v) ∷ s;
}

abbrev config : LogCompressorConfig
config = record {
  max_errors = 10;
  error_context_lines = 1;
  keep_first_error = true;
  keep_last_error = true;
  max_stack_traces = 3;
  stack_trace_max_lines = 20;
  max_warnings = 5;
  dedupe_warnings = true;
  keep_summary_lines = true;
  max_total_lines = 10;
  enable_ccr = true;
  min_lines_for_ccr = 5;
}

abbrev build_log : Bytes
build_log = join (10 ∷ []) (
    codes "Compiling a"
    ∷ codes "ok"
    ∷ codes "error: x"
    ∷ codes "  --> src/a.rs:3:7"
    ∷ codes "ok"
    ∷ codes "ok"
    ∷ codes "ok"
    ∷ [])

context_run :
    map
      (λ l. l.line_number)
      (selected_with_context scores matchers config
        (parse_lines scores matchers config (split_lines build_log)))
    ≡ 1 ∷ 2 ∷ 3 ∷ 4 ∷ []
unfolding join split_lines with_context add_context add_context_line context_indices context_of
    others add add_all select_by_kind select_by_level select_with_first_last first_and_last
    push_line fill_lines dedupe_similar dedupe_from add_stacks stack_runs sort_by insert_sorted
    parse_lines parse_from step_trace open_trace classified score_log_line classify first_level
    is_word_boundary flavor_for terminates is_summary_line is_python_file_frame is_js_at_frame
    is_java_at_frame has_line_col_suffix is_go_frame
context_run = refl

selection_example :
    All
      (λ l. get_elem? (split_lines build_log) l.line_number ≡ some l.content)
      (selection outside config build_log 1000).0
    × IsStrict number (selection outside config build_log 1000).0
    × (length (selection outside config build_log 1000).0 ≤ 10)
selection_example = selection_lem outside config build_log 1000 (omega arith)

context_example :
    let log_lines = parse_lines scores matchers config (split_lines build_log) in
    HasKey number 4 (selected_with_context scores matchers config log_lines) ↔ (
      Near 1 4 (select_by_kind scores matchers config log_lines)
      × (4 < length (split_lines build_log)))
context_example = selected_with_context_iff outside config build_log 4
