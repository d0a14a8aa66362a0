-- ===== src/Log/Select/Chosen.antt =====
-- log_compressor.rs: the lines that `select_lines` gives are lines of the log, in their order.
use lm_resizer.Base.{
  ℕ, ◌≤◌, sym, subst, subst, inl, inr, true, false, List, [], ◌∷◌, filter, length, take, any, Bytes,
  bytes_eq, ltb, leb, if◌then◌else◌, All, All-filter, All-take, length-take, Bool-cases, arith,
}
use lm_resizer.Base.Sort.{sort_by, length-sort_by}
use lm_resizer.Base.Sort.Keys.{lower_key}
use lm_resizer.Base.Sort.Members.{All-sort_by}
use lm_resizer.Base.Sort.Strict.{best-IsStrict}
use lm_resizer.Base.TreeSet.{add_all}
use lm_resizer.Base.TreeSet.Laws.{IsStrict, All-add_all, add-IsStrict, add_all-IsStrict}
use lm_resizer.Sizer.{Floats, Texts}
use lm_resizer.Log.{
  LogLevel, error, fail, warn, LogLine, LogCompressorConfig, LogCompressorStats, same_level,
}
use lm_resizer.Log.Patterns.{Matchers, normalize_for_dedupe}
use lm_resizer.Log.Lines.{Scores}
use lm_resizer.Log.Select.{
  number, first, of_level, stack_runs, push_some, add_context_line, add_context, with_context,
  add_stacks, better_line, dedupe_from, dedupe_similar, first_and_last, select_with_first_last,
  kept_warnings, select_by_level, select_by_kind, cap_lines, adaptive_max, selected_with_context,
  select_lines,
}
use lm_resizer.Log.Select.Subset.{
  add_context_line-cases, All-stack_runs, All-push_first, All-push_last, All-fill_lines,
  All-add_context, All-add_stacks,
}

module _ {F : Type 0} where
  add_stacks-IsStrict :
      (n : ℕ) (stacks : List (List (LogLine F))) (set : List (LogLine F))
      → IsStrict number set
      → IsStrict number (add_stacks n stacks set)
  unfolding add_stacks
  add_stacks-IsStrict n [] set h = h
  add_stacks-IsStrict n (stack ∷ stacks) set h =
      add_stacks-IsStrict n stacks (add_all number (take n stack) set)
        (add_all-IsStrict number (take n stack) set h)

  add_context_line-IsStrict :
      (log_lines chosen : List (LogLine F)) (idx : ℕ) (selected : List (LogLine F))
      → IsStrict number selected
      → IsStrict number (add_context_line log_lines chosen idx selected)
  add_context_line-IsStrict log_lines chosen idx selected h =
      elim (add_context_line-cases log_lines chosen idx selected) [
        | inl (why, e) ↦ subst (IsStrict number) (sym e) h
        | inr (line, at, e) ↦ subst (IsStrict number) (sym e) (add-IsStrict number line selected h)
      ]

  add_context-IsStrict :
      (log_lines chosen : List (LogLine F)) (indices : List ℕ) (selected : List (LogLine F))
      → IsStrict number selected
      → IsStrict number (add_context log_lines chosen indices selected)
  unfolding add_context
  add_context-IsStrict log_lines chosen [] selected h = h
  add_context-IsStrict log_lines chosen (idx ∷ indices) selected h =
      add_context-IsStrict log_lines chosen indices (add_context_line log_lines chosen idx selected)
        (add_context_line-IsStrict log_lines chosen idx selected h)

module _ {F : Type 0} (f : Scores F) (p : Matchers) where
  All-dedupe_from :
      (P : LogLine F → Type 0) (seen : List Bytes) (lines : List (LogLine F))
      → All P lines
      → All P (dedupe_from f p seen lines)
  unfolding dedupe_from
  All-dedupe_from P seen [] h = tt
  All-dedupe_from P seen (l ∷ ls) (hl, h) =
      elim (Bool-cases (any (bytes_eq (normalize_for_dedupe p l.content)) seen)) [
        | inl old ↦ rw (old) (All-dedupe_from P seen ls h)
        | inr new ↦ rw (new) (hl, All-dedupe_from P (normalize_for_dedupe p l.content ∷ seen) ls h)
      ]

  module _ (config : LogCompressorConfig) where
    module _ (P : LogLine F → Type 0) where
      All-first_and_last :
          (lines : List (LogLine F)) → All P lines → All P (first_and_last f p config lines)
      unfolding first_and_last
      All-first_and_last lines h = elim (Bool-cases config.keep_first_error) [
        | inl first_too ↦
            let one = All-push_first P lines [] h tt in
            rw (first_too) (elim (Bool-cases config.keep_last_error) [
              | inl last_too ↦
                  rw (last_too) (All-push_last P lines (push_some (first lines) []) h one)
              | inr no_last ↦ rw (no_last) one
            ])
        | inr no_first ↦ rw (no_first) (elim (Bool-cases config.keep_last_error) [
          | inl last_too ↦ rw (last_too) (All-push_last P lines [] h tt)
          | inr no_last ↦ rw (no_last) tt
        ])
      ]

      All-select_with_first_last :
          (lines : List (LogLine F)) (n : ℕ)
          → All P lines
          → All P (select_with_first_last f p config lines n)
      unfolding select_with_first_last
      All-select_with_first_last lines n h =
          let ends = All-first_and_last lines h in
          elim (Bool-cases (leb (length lines) n)) [
            | inl few ↦ rw (few) h
            | inr many ↦
                rw (many) (elim (Bool-cases (ltb (length (first_and_last f p config lines)) n)) [
                  | inl room ↦ rw (room) (
                      All-fill_lines P n (sort_by (better_line f p) lines)
                        (first_and_last f p config lines) (All-sort_by (better_line f p) P lines h)
                        ends)
                  | inr full ↦ rw (full) ends
                ])
          ]

      All-kept_warnings :
          (log_lines : List (LogLine F))
          → All P log_lines
          → All P (kept_warnings f p config log_lines)
      unfolding dedupe_similar
      All-kept_warnings log_lines h =
          let warnings = All-filter P (λ l. same_level l.level warn) log_lines h in
          elim config.dedupe_warnings
            as (λ b. All P (
              if b
              then dedupe_similar f p (of_level warn log_lines)
              else of_level warn log_lines)) [
                | true ↦ All-dedupe_from P [] (of_level warn log_lines) warnings
                | false ↦ warnings
              ]

      All-select_by_level :
          (log_lines : List (LogLine F))
          → All P log_lines
          → All P (select_by_level f p config log_lines)
      unfolding select_by_level
      All-select_by_level log_lines h =
          let kind =
            λ (level : LogLevel). All-filter P (λ l. same_level l.level level) log_lines h in
          let errors =
            All-add_all number P _ []
              (All-select_with_first_last (of_level error log_lines) config.max_errors (kind error))
              tt in
          let fails =
            All-add_all number P _ _
              (All-select_with_first_last (of_level fail log_lines) config.max_errors (kind fail))
              errors in
          let warnings =
            All-add_all number P _ _
              (All-take P config.max_warnings _ (All-kept_warnings log_lines h)) fails in
          All-add_stacks P config.stack_trace_max_lines _ _
            (All-take (All P) config.max_stack_traces _ (All-stack_runs P [] log_lines tt h))
            warnings

      pub All-select_by_kind :
          (log_lines : List (LogLine F))
          → All P log_lines
          → All P (select_by_kind f p config log_lines)
      unfolding select_by_kind
      All-select_by_kind log_lines h =
          let by_level = select_by_level f p config log_lines in
          let summaries = filter (λ l. l.is_summary) log_lines in
          elim config.keep_summary_lines
            as (λ b. All P (if b then add_all number summaries by_level else by_level)) [
              | true ↦
                  All-add_all number P summaries by_level
                    (All-filter P (λ l. l.is_summary) log_lines h) (All-select_by_level log_lines h)
              | false ↦ All-select_by_level log_lines h
            ]

      All-selected_with_context :
          (log_lines : List (LogLine F))
          → All P log_lines
          → All P (selected_with_context f p config log_lines)
      unfolding with_context
      All-selected_with_context log_lines h =
          All-add_context P log_lines (select_by_kind f p config log_lines) _ _ h
            (All-select_by_kind log_lines h)

      All-cap_lines :
          (n : ℕ) (ordered : List (LogLine F))
          → All P ordered
          → All P (cap_lines f p config n ordered)
      unfolding cap_lines
      All-cap_lines n ordered h = elim (Bool-cases (ltb n (length ordered))) [
        | inl over ↦ rw (over) (
            All-sort_by (lower_key number) P _
              (All-take P n _ (All-sort_by (better_line f p) P ordered h)))
        | inr within ↦ rw (within) h
      ]

    select_by_level-IsStrict :
        (log_lines : List (LogLine F)) → IsStrict number (select_by_level f p config log_lines)
    unfolding select_by_level
    select_by_level-IsStrict log_lines =
        add_stacks-IsStrict config.stack_trace_max_lines
          (take config.max_stack_traces (stack_runs [] log_lines)) _
          (add_all-IsStrict number (take config.max_warnings (kept_warnings f p config log_lines)) _
            (add_all-IsStrict number _ _ (add_all-IsStrict number _ [] tt)))

    select_by_kind-IsStrict :
        (log_lines : List (LogLine F)) → IsStrict number (select_by_kind f p config log_lines)
    unfolding select_by_kind
    select_by_kind-IsStrict log_lines =
        let by_level = select_by_level f p config log_lines in
        let summaries = filter (λ l. l.is_summary) log_lines in
        elim config.keep_summary_lines
          as (λ b. IsStrict number (if b then add_all number summaries by_level else by_level)) [
            | true ↦ add_all-IsStrict number summaries by_level (select_by_level-IsStrict log_lines)
            | false ↦ select_by_level-IsStrict log_lines
          ]

    cap_lines-IsStrict :
        (n : ℕ) (ordered : List (LogLine F))
        → IsStrict number ordered
        → IsStrict number (cap_lines f p config n ordered)
    unfolding cap_lines
    cap_lines-IsStrict n ordered h = elim (Bool-cases (ltb n (length ordered))) [
      | inl over ↦ rw (over) (best-IsStrict number (better_line f p) n ordered h)
      | inr within ↦ rw (within) h
    ]

    length-cap_lines-le :
        (n : ℕ) (ordered : List (LogLine F)) → length (cap_lines f p config n ordered) ≤ n
    unfolding cap_lines
    length-cap_lines-le n ordered =
        let best = take n (sort_by (better_line f p) ordered) in
        elim (Bool-cases (ltb n (length ordered))) [
          | inl over ↦ rw (over) (
              omega (
                arith,
                length-sort_by (lower_key number) best,
                length-take n (sort_by (better_line f p) ordered),
              ))
          | inr within ↦ rw (within) (ground arith)
        ]

module _ {F D : Type 0} (f : Scores F) (p : Matchers) (floats : Floats D) (texts : Texts)
    (config : LogCompressorConfig) where
  -- What holds of every line of the log holds of the selected lines; they are in the strict order of
  -- their numbers, and as many at most as `compute_optimal_k` allows.
  pub select_lines_lem :
      (P : LogLine F → Type 0) (log_lines : List (LogLine F)) (bias : D)
      (stats : LogCompressorStats)
      → All P log_lines
      → All P (select_lines f p floats texts config log_lines bias stats).0
        × IsStrict number (select_lines f p floats texts config log_lines bias stats).0
        × (length (select_lines f p floats texts config log_lines bias stats).0
            ≤ adaptive_max f p floats texts config log_lines bias)
  unfolding select_lines with_context
  select_lines_lem P log_lines bias stats h =
      let n = adaptive_max f p floats texts config log_lines bias in
      let ordered = selected_with_context f p config log_lines in
      (
        All-cap_lines f p config P n ordered (All-selected_with_context f p config P log_lines h),
        cap_lines-IsStrict f p config n ordered
            (add_context-IsStrict log_lines _ _ _ (select_by_kind-IsStrict f p config log_lines)),
        length-cap_lines-le f p config n ordered,
      )
