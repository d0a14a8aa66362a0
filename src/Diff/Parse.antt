-- ===== src/Diff/Parse.antt =====
-- `parse_diff`. `zero` is the score 0.0 that a hunk is made with.
pub mod Headers
use lm_resizer.Base.{
  ℕ, ◌+◌, Bool, true, false, ◌&&◌, ◌||◌, not, Option, none, some, List, [], ◌∷◌, ◌++◌, Bytes, codes,
  starts_with, is_empty, if◌then◌else◌,
}
use lm_resizer.Diff.{DiffHunk, DiffFile, ParsedDiff}
use lm_resizer.Diff.Patterns.{
  is_diff_header, is_old_file, is_new_file, is_binary_line, is_hunk_header,
}

-- The variables of the loop.
pub record Parser (F : Type 0) : Type 0 where
  pub files : List (DiffFile F)
  pub current_file : Option (DiffFile F)
  pub current_hunk : Option (DiffHunk F)
  pub pre_diff_lines : List Bytes

abbrev pub is_addition : Bytes → Bool
is_addition line = starts_with (codes "+") line && not (starts_with (codes "+++") line)

abbrev pub is_deletion : Bytes → Bool
is_deletion line = starts_with (codes "-") line && not (starts_with (codes "---") line)

abbrev pub is_context : Bytes → Bool
is_context line = starts_with (codes " ") line || is_empty line

module _ {F : Type 0} where
  abbrev pub new_file_at : Bytes → DiffFile F
  new_file_at line = record {
    header = line;
    old_file = [];
    new_file = [];
    hunks = [];
    is_binary = false;
    is_new_file = false;
    is_deleted_file = false;
    is_renamed = false;
    rename_lines = [];
    original_new_file_mode_line = none;
    original_deleted_file_mode_line = none;
    original_binary_line = none;
  }

  abbrev pub new_hunk_at : F → Bytes → DiffHunk F
  new_hunk_at zero line = record {
    header = line;
    lines = [];
    additions = 0;
    deletions = 0;
    context_lines = 0;
    score = zero;
  }

  -- `if let Some(h) = current_hunk.take() { f.hunks.push(h) }`.
  unfoldable pub push_hunk : DiffFile F → Option (DiffHunk F) → DiffFile F
  push_hunk f none = f
  push_hunk f (some h) = record f { hunks = f.hunks ++ h ∷ [] }

  -- The files with the current one, if there is one, and its current hunk pushed.
  unfoldable pub flush : Parser F → List (DiffFile F)
  flush p = elim p.current_file [
    | none ↦ p.files
    | some f ↦ p.files ++ push_hunk f p.current_hunk ∷ []
  ]

  -- The markers of a file: mode, rename and binary lines.
  unfoldable pub mark_file : DiffFile F → Bytes → DiffFile F
  mark_file f line =
      if starts_with (codes "new file mode") line
      then record f { is_new_file = true; original_new_file_mode_line = some line }
      else if starts_with (codes "deleted file mode") line
      then record f { is_deleted_file = true; original_deleted_file_mode_line = some line }
      else if starts_with (codes "rename ") line
          || starts_with (codes "similarity ") line
          || starts_with (codes "copy ") line
          || starts_with (codes "dissimilarity ") line
      then record f { is_renamed = true; rename_lines = f.rename_lines ++ line ∷ [] }
      else if is_binary_line line
      then record f { is_binary = true; original_binary_line = some line }
      else f

  -- A line of a hunk's content.
  unfoldable pub add_line : DiffHunk F → Bytes → DiffHunk F
  add_line h line =
      if is_addition line
      then record h { additions = h.additions + 1; lines = h.lines ++ line ∷ [] }
      else if is_deletion line
      then record h { deletions = h.deletions + 1; lines = h.lines ++ line ∷ [] }
      else if is_context line
      then record h { context_lines = h.context_lines + 1; lines = h.lines ++ line ∷ [] }
      else record h { lines = h.lines ++ line ∷ [] }

  unfoldable pub add_content : Option (DiffHunk F) → Bytes → Option (DiffHunk F)
  add_content none line = none
  add_content (some h) line = some (add_line h line)

  -- A line after the first file header, with the file that it is in.
  unfoldable pub file_line : (Bytes → ℕ) → F → Parser F → DiffFile F → Bytes → Parser F
  file_line digit_width zero p f line =
      if is_old_file line
      then record p { current_file = some (record f { old_file = line }) }
      else if is_new_file line
      then record p { current_file = some (record f { new_file = line }) }
      else if is_hunk_header digit_width line
      then record p {
        current_file = some (push_hunk f p.current_hunk);
        current_hunk = some (new_hunk_at zero line);
      }
      else record p { current_file = some f; current_hunk = add_content p.current_hunk line }

  unfoldable pub parse_line : (Bytes → ℕ) → F → Parser F → Bytes → Parser F
  parse_line digit_width zero p line =
      if is_diff_header line
      then record p { files = flush p; current_file = some (new_file_at line); current_hunk = none }
      else elim p.current_file [
        | none ↦ record p { pre_diff_lines = p.pre_diff_lines ++ line ∷ [] }
        | some f ↦ file_line digit_width zero p (mark_file f line) line
      ]

  unfoldable pub parse_lines : (Bytes → ℕ) → F → Parser F → List Bytes → Parser F
  parse_lines digit_width zero p [] = p
  parse_lines digit_width zero p (line ∷ lines) =
      parse_lines digit_width zero (parse_line digit_width zero p line) lines

  abbrev pub empty_parser : Parser F
  empty_parser = record {
    files = [];
    current_file = none;
    current_hunk = none;
    pre_diff_lines = [];
  }

  unfoldable pub parse_diff : (Bytes → ℕ) → F → List Bytes → ParsedDiff F
  parse_diff digit_width zero lines =
      let p = parse_lines digit_width zero empty_parser lines in
      record { pre_diff_lines = p.pre_diff_lines; files = flush p }
