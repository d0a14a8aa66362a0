-- ===== src/Log/Compress/Original.antt =====
-- log_compressor.rs: what the output shows of the original.
use lm_resizer.Base.{
  ℕ, ◌≤◌, ◌<◌, ◌↔◌, subst, ◌≡◌, some, List, map, length, get_elem?, All, All-map, Bytes, arith,
}
use lm_resizer.Base.Lines.{split_lines}
use lm_resizer.Base.TreeSet.Laws.{IsStrict, HasKey}
use lm_resizer.Sizer.Bounds.{compute_optimal_k_bounds}
use lm_resizer.Log.{LogLine, LogCompressorConfig}
use lm_resizer.Log.Lines.{parse_lines}
use lm_resizer.Log.Lines.Numbered.{
  IsLineOf, parse_lines-IsLineOf, parse_lines-Numbered, IsLineOf-content, length-parse_lines,
}
use lm_resizer.Log.Select.{number, adaptive_max, select_by_kind, selected_with_context}
use lm_resizer.Log.Select.Chosen.{select_lines_lem, All-select_by_kind}
use lm_resizer.Log.Select.Near.{Near}
use lm_resizer.Log.Select.Windows.{with_context_iff}
use lm_resizer.Log.Compress.{Outside, selection}

module _ {F D S : Type 0} (o : Outside F D S) (config : LogCompressorConfig) where
  adaptive_max-le :
      (log_lines : List (LogLine F)) (bias : D)
      → 10 ≤ config.max_total_lines
      → adaptive_max o.scores o.matchers o.floats o.texts config log_lines bias
        ≤ config.max_total_lines
  unfolding adaptive_max
  adaptive_max-le log_lines bias h =
      let cap =
        compute_optimal_k_bounds o.floats o.texts (map (λ l. l.content) log_lines) bias 10
          (some config.max_total_lines) h in
      ground (arith, cap)

  -- With a cap of ten lines or more, the selected lines are lines of the text, each with its own number,
  -- in the order of the text and none of them twice, and no more than the cap.
  pub selection_lem :
      (content : Bytes) (bias : D)
      → 10 ≤ config.max_total_lines
      → All
          (λ l. get_elem? (split_lines content) l.line_number ≡ some l.content)
          (selection o config content bias).0
        × IsStrict number (selection o config content bias).0
        × (length (selection o config content bias).0 ≤ config.max_total_lines)
  selection_lem content bias h =
      let lines = split_lines content in
      let log_lines = parse_lines o.scores o.matchers config lines in
      let (from, strict, few) =
        select_lines_lem o.scores o.matchers o.floats o.texts config
          (λ l. get_elem? lines l.line_number ≡ some l.content) log_lines bias _
          (All-map log_lines (λ l at. IsLineOf-content o.scores o.matchers config lines l at)
            (parse_lines-IsLineOf o.scores o.matchers config lines)) in
      (from, strict, omega (arith, few, adaptive_max-le log_lines bias h))

  -- Before the cap, the lines selected from a text are exactly those that are no further from a line
  -- selected for what it is than the context reaches.
  pub selected_with_context_iff :
      (content : Bytes) (k : ℕ)
      → let log_lines = parse_lines o.scores o.matchers config (split_lines content) in
        HasKey number k (selected_with_context o.scores o.matchers config log_lines) ↔ (
          Near config.error_context_lines k (select_by_kind o.scores o.matchers config log_lines)
          × (k < length (split_lines content)))
  selected_with_context_iff content k =
      let lines = split_lines content in
      let log_lines = parse_lines o.scores o.matchers config lines in
      subst
        (λ n. HasKey number k (selected_with_context o.scores o.matchers config log_lines) ↔ (
          Near config.error_context_lines k (select_by_kind o.scores o.matchers config log_lines)
          × (k < n)))
        (length-parse_lines o.scores o.matchers config lines)
        (with_context_iff config.error_context_lines log_lines
          (select_by_kind o.scores o.matchers config log_lines) k
          (parse_lines-Numbered o.scores o.matchers config lines)
          (All-select_by_kind o.scores o.matchers config (IsLineOf log_lines) log_lines
            (parse_lines-IsLineOf o.scores o.matchers config lines)))
