-- ===== src/Log/Select.antt =====
-- log_compressor.rs: `select_lines`. A set of lines is ordered by their numbers.
pub mod Subset
pub mod Chosen
pub mod Near
pub mod Windows
use lm_resizer.Base.{
  ℕ, zero, suc, ◌+◌, ◌-◌, min, Bool, true, false, ◌&&◌, ◌||◌, not, Option, none, some, List, [],
  ◌∷◌, ◌++◌, map, filter, length, take, get_elem?, any, Bytes, bytes_eq, is_empty, ltb, leb, ◌==◌,
  if◌then◌else◌, is_some,
}
use lm_resizer.Base.Sort.{sort_by}
use lm_resizer.Base.Sort.Keys.{lower_key}
use lm_resizer.Base.TreeSet.{add, add_all}
use lm_resizer.Sizer.{Floats, Texts, compute_optimal_k}
use lm_resizer.Log.{
  LogLevel, error, fail, warn, LogLine, LogCompressorConfig, LogCompressorStats, same_level,
}
use lm_resizer.Log.Patterns.{Matchers, normalize_for_dedupe}
use lm_resizer.Log.Lines.{Scores}

abbrev pub number : {F : Type 0} → LogLine F → ℕ
number l = l.line_number

abbrev pub first : {A : Type 0} → List A → Option A
first [] = none
first (x ∷ xs) = some x

abbrev pub last : {A : Type 0} → List A → Option A
last [] = none
last (x ∷ []) = some x
last (x ∷ y ∷ xs) = last (y ∷ xs)

-- The numbers of the lines from `lo` on, `n` of them, other than `idx`.
unfoldable pub others : ℕ → ℕ → ℕ → List ℕ
others idx lo zero = []
others idx lo (suc n) = let rest = others idx (suc lo) n in if lo == idx then rest else lo ∷ rest

unfoldable pub context_of : ℕ → ℕ → ℕ → List ℕ
context_of context_lines len idx =
    let lo = idx - context_lines in
    let hi = min (idx + context_lines + 1) len in others idx lo (hi - lo)

module _ {F : Type 0} where
  abbrev pub of_level : LogLevel → List (LogLine F) → List (LogLine F)
  of_level level lines = filter (λ l. same_level l.level level) lines

  unfoldable pub warnings_dropped : List (LogLine F) → List (LogLine F) → ℕ
  warnings_dropped all deduped = length (of_level warn all) - length deduped

  abbrev pub unless_empty : List (LogLine F) → List (List (LogLine F)) → List (List (LogLine F))
  unless_empty [] stacks = stacks
  unless_empty (l ∷ ls) stacks = (l ∷ ls) ∷ stacks

  -- The runs of lines that belong to stack traces, `current` the one at hand.
  unfoldable pub stack_runs : List (LogLine F) → List (LogLine F) → List (List (LogLine F))
  stack_runs current [] = unless_empty current []
  stack_runs current (l ∷ ls) =
      let more = stack_runs (current ++ (l ∷ [])) ls in
      let closed = unless_empty current (stack_runs [] ls) in
      if l.is_stack_trace then more else closed

  abbrev pub has_number : List (LogLine F) → ℕ → Bool
  has_number lines i = any (λ l. l.line_number == i) lines

  -- Lines that are not there yet; `seen` is what the list holds.
  unfoldable pub push_line : LogLine F → List (LogLine F) → List (LogLine F)
  push_line line out = if has_number out line.line_number then out else out ++ (line ∷ [])

  abbrev pub push_some : Option (LogLine F) → List (LogLine F) → List (LogLine F)
  push_some none out = out
  push_some (some line) out = push_line line out

  unfoldable pub fill_lines : ℕ → List (LogLine F) → List (LogLine F) → List (LogLine F)
  fill_lines max_count [] out = out
  fill_lines max_count (line ∷ lines) out =
      let pushed = push_line line out in
      let skip = fill_lines max_count lines out in
      let more =
        if leb max_count (length pushed) then pushed else fill_lines max_count lines pushed in
      if has_number out line.line_number then skip else more

  unfoldable pub context_indices : ℕ → ℕ → List (LogLine F) → List ℕ → List ℕ
  context_indices context_lines len [] set = set
  context_indices context_lines len (l ∷ ls) set =
      context_indices context_lines len ls
        (add_all (λ i. i) (context_of context_lines len l.line_number) set)

  -- `log_lines[idx]`, unless it is selected.
  unfoldable pub add_context_line :
      List (LogLine F) → List (LogLine F) → ℕ → List (LogLine F) → List (LogLine F)
  add_context_line log_lines chosen idx selected = elim (get_elem? log_lines idx) [
    | none ↦ selected
    | some line ↦ if has_number chosen idx then selected else add number line selected
  ]

  unfoldable pub add_context :
      List (LogLine F) → List (LogLine F) → List ℕ → List (LogLine F) → List (LogLine F)
  add_context log_lines chosen [] selected = selected
  add_context log_lines chosen (idx ∷ indices) selected =
      add_context log_lines chosen indices (add_context_line log_lines chosen idx selected)

  unfoldable pub with_context : ℕ → List (LogLine F) → List (LogLine F) → List (LogLine F)
  with_context context_lines log_lines selected =
      add_context log_lines selected (context_indices context_lines (length log_lines) selected [])
        selected

  unfoldable pub add_stacks : ℕ → List (List (LogLine F)) → List (LogLine F) → List (LogLine F)
  add_stacks max_lines [] set = set
  add_stacks max_lines (stack ∷ stacks) set =
      add_stacks max_lines stacks (add_all number (take max_lines stack) set)

module _ {F : Type 0} (f : Scores F) (p : Matchers) where
  abbrev pub better_line : LogLine F → LogLine F → Bool
  better_line a b =
      f.greater a.score b.score
      || (not (f.greater b.score a.score) && ltb a.line_number b.line_number)

  -- `dedupe_similar`, with the keys seen so far.
  unfoldable pub dedupe_from : List Bytes → List (LogLine F) → List (LogLine F)
  dedupe_from seen [] = []
  dedupe_from seen (line ∷ lines) =
      let key = normalize_for_dedupe p line.content in
      let rest = dedupe_from (if any (bytes_eq key) seen then seen else key ∷ seen) lines in
      if any (bytes_eq key) seen then rest else line ∷ rest

  unfoldable pub dedupe_similar : List (LogLine F) → List (LogLine F)
  dedupe_similar lines = dedupe_from [] lines

  module _ (config : LogCompressorConfig) where
    unfoldable pub first_and_last : List (LogLine F) → List (LogLine F)
    first_and_last lines =
        let with_first = if config.keep_first_error then push_some (first lines) [] else [] in
        if config.keep_last_error then push_some (last lines) with_first else with_first

    unfoldable pub select_with_first_last : List (LogLine F) → ℕ → List (LogLine F)
    select_with_first_last lines max_count =
        let with_last = first_and_last lines in
        if leb (length lines) max_count
        then lines
        else if ltb (length with_last) max_count
        then fill_lines max_count (sort_by better_line lines) with_last
        else with_last

    abbrev pub kept_warnings : List (LogLine F) → List (LogLine F)
    kept_warnings log_lines =
        if config.dedupe_warnings
        then dedupe_similar (of_level warn log_lines)
        else of_level warn log_lines

    -- The lines that are selected for what they are, before the summaries.
    unfoldable pub select_by_level : List (LogLine F) → List (LogLine F)
    select_by_level log_lines =
        let errors =
          add_all number (select_with_first_last (of_level error log_lines) config.max_errors) [] in
        let fails =
          add_all number (select_with_first_last (of_level fail log_lines) config.max_errors)
            errors in
        let warnings = add_all number (take config.max_warnings (kept_warnings log_lines)) fails in
        add_stacks config.stack_trace_max_lines
          (take config.max_stack_traces (stack_runs [] log_lines)) warnings

    unfoldable pub select_by_kind : List (LogLine F) → List (LogLine F)
    select_by_kind log_lines =
        if config.keep_summary_lines
        then add_all number (filter (λ l. l.is_summary) log_lines) (select_by_level log_lines)
        else select_by_level log_lines

    -- The best lines, as many as are allowed, in their order.
    unfoldable pub cap_lines : ℕ → List (LogLine F) → List (LogLine F)
    cap_lines adaptive_max ordered =
        if ltb adaptive_max (length ordered)
        then sort_by (lower_key number) (take adaptive_max (sort_by better_line ordered))
        else ordered

    abbrev pub selected_with_context : List (LogLine F) → List (LogLine F)
    selected_with_context log_lines =
        with_context config.error_context_lines log_lines (select_by_kind log_lines)

module _ {F D : Type 0} (f : Scores F) (p : Matchers) (floats : Floats D) (texts : Texts)
    (config : LogCompressorConfig) where
  unfoldable pub adaptive_max : List (LogLine F) → D → ℕ
  adaptive_max log_lines bias =
      compute_optimal_k floats texts (map (λ l. l.content) log_lines) bias 10
        (some config.max_total_lines)

  unfoldable pub select_lines :
      List (LogLine F) → D → LogCompressorStats → List (LogLine F) × LogCompressorStats
  select_lines log_lines bias stats =
      let stacks = stack_runs [] log_lines in
      let ordered = selected_with_context f p config log_lines in
      (
        cap_lines f p config (adaptive_max log_lines bias) ordered,
        record stats {
          stack_traces_seen = length stacks;
          stack_traces_kept =
              stats.stack_traces_kept + length (take config.max_stack_traces stacks);
          warnings_dropped_by_dedupe =
              if config.dedupe_warnings
              then warnings_dropped log_lines (dedupe_similar f p (of_level warn log_lines))
              else stats.warnings_dropped_by_dedupe;
          lines_dropped_by_global_cap =
              stats.lines_dropped_by_global_cap + (length ordered - adaptive_max log_lines bias);
        },
      )
