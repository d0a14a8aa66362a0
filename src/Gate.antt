-- ===== src/Gate.antt =====
-- crates/lm-resizer-core/src/transforms/diagnostic_gate.rs: failure lines that a compressed text no
-- longer shows are put back. The regular expressions and the trimming of Unicode whitespace are
-- parameters; a `HashMap` of counts is a function, 0 where there is no key.
pub mod Lost
pub mod Lines
pub mod Restored
use lm_resizer.Base.{
  ℕ, ◌+◌, ◌-◌, Bool, true, false, ◌&&◌, ◌||◌, not, Option, none, some, List, [], ◌∷◌, ◌++◌, length,
  Bytes, codes, starts_with, contains, bytes_eq, is_empty, ltb, ◌==◌, if◌then◌else◌, is_some,
}
use lm_resizer.Base.Decimal.{decimal}

pub record Patterns : Type 0 where
  pub failure_signal : Bytes → Bool
  pub labelled : Bytes → Bool
  -- `SGR.replace_all(line, "")`.
  pub strip_sgr : Bytes → Bytes
  pub trim : Bytes → Bytes
  pub trim_start : Bytes → Bytes

-- The line above the lines that explain it: its indentation, and whether it reports a panic.
pub record Run : Type 0 where
  pub base : ℕ
  pub panicked : Bool

abbrev pub add_first : ℕ → List Bytes → List Bytes
add_first c [] = (c ∷ []) ∷ []
add_first c (line ∷ lines) = (c ∷ line) ∷ lines

-- `text.lines()`: a line ends at a line feed, and at a carriage return before one.
unfoldable pub lines_of : Bytes → List Bytes
lines_of [] = []
lines_of (c ∷ s) =
    let rest = lines_of s in
    if c == 10
    then [] ∷ rest
    else if c == 13 && starts_with (10 ∷ []) s
    then rest
    else add_first c rest

abbrev pub Counts : Type 0
Counts = Bytes → ℕ

-- `*present.entry(k).or_insert(0) += 1`.
unfoldable pub add_one : Counts → Bytes → Counts
add_one present k q = if bytes_eq k q then present q + 1 else present q

-- `*count -= 1`.
unfoldable pub take_one : Counts → Bytes → Counts
take_one present k q = if bytes_eq k q then present q - 1 else present q

-- Each line and a line feed.
abbrev pub unlines : List Bytes → Bytes
unlines [] = []
unlines (line ∷ lines) = line ++ (10 ∷ unlines lines)

-- `out.ends_with('\n')`.
abbrev pub ends_with_newline : Bytes → Bool
ends_with_newline [] = false
ends_with_newline (c ∷ []) = c == 10
ends_with_newline (c ∷ d ∷ s) = ends_with_newline (d ∷ s)

unfoldable pub marker : ℕ → Bytes
marker lost =
    codes "[lm-resizer: "
    ++ (decimal lost
        ++ (codes " lignes d'"
            ++ (195 ∷ 169 ∷ codes "chec omises par la compression, r"
                ++ (195 ∷ 169 ∷ codes "inject" ++ (195 ∷ 169 ∷ codes "es ci-dessous]")))))

module _ (p : Patterns) where
  unfoldable pub is_failure_signal : Bytes → Bool
  is_failure_signal line =
      if contains (27 ∷ []) line then p.failure_signal (p.strip_sgr line) else p.failure_signal line

  unfoldable pub indent_of : Bytes → ℕ
  indent_of line = length line - length (p.trim_start line)

  abbrev pub usable : Bytes → Bool
  usable line = not (is_empty (p.trim line))

  -- A line that starts a run of lines to keep.
  unfoldable pub reports_failure : Bytes → Bool
  reports_failure line =
      (usable line && is_failure_signal line)
      && not (
          starts_with (codes "% Total    % Received") (p.trim line)
          || starts_with (codes "diff --git ") (p.trim line)
          || starts_with (codes "test result: ok.") (p.trim line))

  -- The check marks in UTF-8, and the word.
  abbrev passes : Bytes → Bool
  passes t =
      starts_with (226 ∷ 156 ∷ 147 ∷ []) t
      || starts_with (226 ∷ 156 ∷ 148 ∷ []) t
      || starts_with (226 ∷ 136 ∷ 154 ∷ []) t
      || starts_with (codes "PASS ") t

  -- A line that goes on with the run, by the inner loop.
  unfoldable pub explains : Run → Bytes → Bool
  explains run next =
      not (not (usable next) || is_failure_signal next || passes (p.trim_start next))
      && (p.labelled (p.trim_start next) || ltb run.base (indent_of next) || run.panicked)

  -- The run that a line belongs to. A line that does not go on with the run is looked at anew.
  unfoldable pub run_at : Bytes → Option Run
  run_at line =
      if reports_failure line
      then some (record { base = indent_of line; panicked = contains (codes "panicked at") line })
      else none

  unfoldable pub next_run : Option Run → Bytes → Option Run
  next_run none line = run_at line
  next_run (some run) line = if explains run line then some run else run_at line

  -- The lines with `keep`, the two nested loops.
  unfoldable pub kept_lines : Option Run → List Bytes → List Bytes
  kept_lines run [] = []
  kept_lines run (line ∷ lines) =
      let rest = kept_lines (next_run run line) lines in
      if is_some (next_run run line) then line ∷ rest else rest

  -- A line as it is counted: trimmed, without colours.
  abbrev pub key : Bytes → Bytes
  key line = p.strip_sgr (p.trim line)

  -- The loop over `after.lines()`.
  unfoldable pub count_present : Counts → List Bytes → Counts
  count_present present [] = present
  count_present present (line ∷ lines) = count_present (add_one present (key line)) lines

  -- The last filter of `lost_failure_lines`.
  unfoldable pub not_present : Counts → List Bytes → List Bytes
  not_present present [] = []
  not_present present (line ∷ lines) = elim (ltb 0 (present (key line))) [
    | true ↦ not_present (take_one present (key line)) lines
    | false ↦ line ∷ not_present present lines
  ]

  unfoldable pub lost_failure_lines : Bytes → Bytes → List Bytes
  lost_failure_lines before after =
      if bytes_eq before after
      then []
      else not_present (count_present (λ k. 0) (lines_of after)) (kept_lines none (lines_of before))

  unfoldable pub reinject_lost_failure_lines : Bytes → Bytes → Bytes × ℕ
  reinject_lost_failure_lines original compressed =
      let lost = lost_failure_lines original compressed in
      if length lost == 0 then (compressed, 0) else (
        compressed
            ++ ((if is_empty compressed || ends_with_newline compressed then [] else 10 ∷ [])
                ++ (marker (length lost) ++ (10 ∷ unlines lost))),
        length lost,
      )
