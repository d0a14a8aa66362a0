-- ===== src/Log/Lines.antt =====
-- log_compressor.rs: `parse_lines`, which classifies the lines and marks those of stack traces.
pub mod Numbered
use lm_resizer.Base.{
  ℕ, zero, suc, ◌+◌, Bool, true, false, ◌||◌, Option, none, some, List, [], ◌∷◌, Bytes, leb,
  if◌then◌else◌,
}
use lm_resizer.Log.{
  LogLevel, error, fail, warn, info, debug, trace, unknown, LogLine, LogCompressorConfig,
}
use lm_resizer.Log.Patterns.{
  Matchers, TraceFlavor, classify, is_summary_line, flavor_for, terminates,
}

-- The `f32` numbers of scores: hundredths, their sum, the cut at 1, and `partial_cmp` as `Greater`.
pub record Scores (F : Type 0) : Type 0 where
  pub hundredths : ℕ → F
  pub add : F → F → F
  pub min_one : F → F
  pub greater : F → F → Bool

-- The trace that is open, and how many lines it has.
abbrev pub Trace : Type 0
Trace = Option TraceFlavor × ℕ

module _ {F : Type 0} (f : Scores F) where
  abbrev pub level_score : LogLevel → ℕ
  level_score error = 100
  level_score fail = 100
  level_score warn = 50
  level_score info = 10
  level_score unknown = 10
  level_score debug = 5
  level_score trace = 2

  unfoldable pub score_log_line : LogLevel → Bool → Bool → F
  score_log_line level is_stack_trace is_summary = f.min_one (
      f.add
        (f.add (f.hundredths (level_score level)) (f.hundredths (if is_stack_trace then 30 else 0)))
        (f.hundredths (if is_summary then 40 else 0)))

  module _ (p : Matchers) (config : LogCompressorConfig) where
    -- A line opens a trace where it looks like one.
    unfoldable pub open_trace : Bytes → Trace × Bool
    open_trace line = elim (flavor_for p line) [
      | some flavor ↦ ((some flavor, 1), true)
      | none ↦ ((none, 0), false)
    ]

    -- The trace after a line, and whether the line belongs to one.
    unfoldable pub step_trace : Trace → Bytes → Trace × Bool
    step_trace (none, trace_lines) line = elim (flavor_for p line) [
      | some flavor ↦ ((some flavor, 1), true)
      | none ↦ ((none, trace_lines), false)
    ]
    step_trace (some flavor, trace_lines) line =
        if leb config.stack_trace_max_lines trace_lines || terminates p flavor line
        then open_trace line
        else ((some flavor, trace_lines + 1), true)

    unfoldable pub classified : ℕ → Bytes → Bool → LogLine F
    classified i line is_stack_trace = record {
      line_number = i;
      content = line;
      level = classify p line;
      is_stack_trace = is_stack_trace;
      is_summary = is_summary_line p line;
      score = score_log_line (classify p line) is_stack_trace (is_summary_line p line);
    }

    unfoldable pub parse_from : ℕ → Trace → List Bytes → List (LogLine F)
    parse_from i active [] = []
    parse_from i active (line ∷ lines) =
        let (active', is_stack_trace) = step_trace active line in
        classified i line is_stack_trace ∷ parse_from (suc i) active' lines

    unfoldable pub parse_lines : List Bytes → List (LogLine F)
    parse_lines lines = parse_from 0 (none, 0) lines
