-- ===== src/Log/Patterns.antt =====
-- log_compressor.rs: what a line looks like. The matches of the `aho-corasick` automata, the trimming
-- of Unicode whitespace and its upper-case letters are parameters.
use lm_resizer.Base.{
  ℕ, ◌+◌, ◌-◌, Bool, true, false, ◌&&◌, ◌||◌, not, Option, none, some, List, [], ◌∷◌, ◌++◌, length,
  take, drop, any, Bytes, codes, starts_with, contains, is_empty, is_ascii_alphanumeric, ltb, leb,
  ◌==◌, if◌then◌else◌,
}
use lm_resizer.Search.Parse.{is_ascii_digit}
use lm_resizer.Log.{LogFormat, pytest, npm, cargo, jest, make, generic, LogLevel, unknown}

pub record Matchers : Type 0 where
  -- Some marker of the format is in the line.
  pub has_marker : LogFormat → Bytes → Bool
  -- `find_iter` of the level words, leftmost and longest: start, end and the level of the word.
  pub level_words : Bytes → List (ℕ × ℕ × LogLevel)
  pub trim_start : Bytes → Bytes
  -- The text begins with an upper-case letter.
  pub starts_uppercase : Bytes → Bool
  -- `replace_all` of the regular expressions for digits, addresses and paths.
  pub replace_digits : Bytes → Bytes
  pub replace_hex : Bytes → Bytes
  pub replace_paths : Bytes → Bytes

abbrev pub is_word_byte : ℕ → Bool
is_word_byte b = is_ascii_alphanumeric b || b == b'_'

-- The byte at a place, where there is one, is no word byte.
abbrev pub no_word_at : Bytes → Bool
no_word_at [] = true
no_word_at (b ∷ s) = not (is_word_byte b)

unfoldable pub is_word_boundary : Bytes → ℕ → ℕ → Bool
is_word_boundary bytes start end =
    (start == 0 || no_word_at (drop (start - 1) bytes))
    && (end == length bytes || no_word_at (drop end bytes))

unfoldable pub first_level : Bytes → List (ℕ × ℕ × LogLevel) → LogLevel
first_level line [] = unknown
first_level line ((start, end, level) ∷ words) =
    if is_word_boundary line start end then level else first_level line words

-- `:<digits>:<digit>` at the front, after the first colon.
abbrev pub col_after : Bytes → Bool
col_after [] = false
col_after (c ∷ []) = false
col_after (c ∷ d ∷ s) =
    if is_ascii_digit c then col_after (d ∷ s) else c == b':' && is_ascii_digit d

abbrev pub starts_digit : Bytes → Bool
starts_digit [] = false
starts_digit (c ∷ s) = is_ascii_digit c

unfoldable pub has_line_col_suffix : Bytes → Bool
has_line_col_suffix [] = false
has_line_col_suffix (c ∷ s) =
    (c == b':' && (starts_digit s && col_after s)) || has_line_col_suffix s

abbrev pub ends_digit : Bytes → Bool
ends_digit [] = false
ends_digit (c ∷ []) = is_ascii_digit c
ends_digit (c ∷ d ∷ s) = ends_digit (d ∷ s)

unfoldable pub is_python_file_frame : Bytes → Bool
is_python_file_frame s =
    starts_with (codes "File \"") s && (contains (codes "\", line ") s && ends_digit s)

unfoldable pub is_js_at_frame : Bytes → Bool
is_js_at_frame s =
    starts_with (codes "at ") s
    && (contains (codes "(") s && (contains (codes ")") s && has_line_col_suffix s))

-- The text up to the first opening parenthesis.
abbrev pub up_to_paren : Bytes → Bytes
up_to_paren [] = []
up_to_paren (c ∷ s) = let rest = up_to_paren s in if c == b'(' then [] else c ∷ rest

abbrev pub is_path_byte : ℕ → Bool
is_path_byte c = is_ascii_alphanumeric c || (c == b'.' || (c == b'_' || c == b'$'))

unfoldable pub is_java_at_frame : Bytes → Bool
is_java_at_frame s =
    let body = up_to_paren (drop 3 s) in
    starts_with (codes "at ") s
    && (contains (codes "(") s
        && (not (any (λ c. not (is_path_byte c)) body) && not (is_empty body)))

abbrev pub skip_digits : Bytes → Bytes
skip_digits [] = []
skip_digits (c ∷ s) = let rest = skip_digits s in if is_ascii_digit c then rest else c ∷ s

abbrev pub skip_spaces : Bytes → Bytes
skip_spaces [] = []
skip_spaces (c ∷ s) = let rest = skip_spaces s in if c == 32 then rest else c ∷ s

abbrev pub starts_hexdigit : Bytes → Bool
starts_hexdigit [] = false
starts_hexdigit (c ∷ s) =
    is_ascii_digit c || ((leb b'a' c && leb c b'f') || (leb b'A' c && leb c b'F'))

abbrev pub address_after : Bytes → Bool
address_after [] = false
address_after (c ∷ s) =
    let rest = skip_spaces s in
    c == b':' && (starts_with (codes "0x") rest && starts_hexdigit (drop 2 rest))

pub data TraceFlavor : Type 0 where
  python_traceback : TraceFlavor
  js : TraceFlavor
  java : TraceFlavor
  rust_error : TraceFlavor
  go : TraceFlavor

abbrev pub starts_any : List Bytes → Bytes → Bool
starts_any ps line = any (λ p. starts_with p line) ps

-- `<digits> passed` and the like.
abbrev pub counts_outcomes : Bytes → Bool
counts_outcomes line =
    starts_digit line
    && (starts_with (codes " ") (skip_digits line)
        && starts_any
            (codes "passed"
              ∷ codes "failed"
              ∷ codes "skipped"
              ∷ codes "error"
              ∷ codes "warning"
              ∷ [])
            (drop 1 (skip_digits line)))

-- The rest after the first of the prefixes that the line has.
abbrev pub strip_first : List Bytes → Bytes → Option Bytes
strip_first [] line = none
strip_first (p ∷ ps) line =
    if starts_with p line then some (drop (length p) line) else strip_first ps line

abbrev pub test_prefixes : List Bytes
test_prefixes =
    codes "Test "
    ∷ codes "Tests "
    ∷ codes "Tests:"
    ∷ codes "Test:"
    ∷ codes "Suite "
    ∷ codes "Suites "
    ∷ codes "Suites:"
    ∷ codes "Suite:"
    ∷ []

abbrev pub has_outcome : Bytes → Bool
has_outcome line =
    starts_any (codes "Build" ∷ codes "Compile" ∷ codes "Test" ∷ []) line
    && any (λ w. contains w line) (codes "succeeded" ∷ codes "failed" ∷ codes "complete" ∷ [])

module _ (p : Matchers) where
  -- `classify`.
  unfoldable pub classify : Bytes → LogLevel
  classify line = first_level line (p.level_words line)

  -- How many of the lines have a marker of the format.
  unfoldable pub marker_score : LogFormat → List Bytes → ℕ
  marker_score format [] = 0
  marker_score format (line ∷ sample) =
      (if p.has_marker format line then 1 else 0) + marker_score format sample

  -- The loop over the formats: a later one must have more marked lines.
  unfoldable pub best_format : List LogFormat → List Bytes → LogFormat → ℕ → LogFormat
  best_format [] sample best score = best
  best_format (format ∷ formats) sample best score =
      let s = marker_score format sample in
      best_format formats sample (if ltb score s then format else best)
        (if ltb score s then s else score)

  unfoldable pub detect : List Bytes → LogFormat
  detect lines = best_format (pytest ∷ npm ∷ cargo ∷ jest ∷ make ∷ []) (take 100 lines) generic 0

  unfoldable pub is_go_frame : Bytes → Bool
  is_go_frame s =
      let trimmed = p.trim_start s in starts_digit trimmed && address_after (skip_digits trimmed)

  unfoldable pub flavor_for : Bytes → Option TraceFlavor
  flavor_for line =
      let trimmed = p.trim_start line in
      if starts_with (codes "Traceback (most recent call last)") trimmed
        || is_python_file_frame trimmed
      then some python_traceback
      else if is_js_at_frame trimmed
      then some js
      else if is_java_at_frame trimmed
      then some java
      else if starts_with (codes "--> ") trimmed && has_line_col_suffix trimmed
      then some rust_error
      else if is_go_frame line
      then some go
      else none

  abbrev pub is_indented_or_blank : Bytes → Bool
  is_indented_or_blank line = is_empty line || starts_any ((32 ∷ []) ∷ (9 ∷ []) ∷ []) line

  abbrev pub continues : Bytes → Bool
  continues trimmed =
      starts_any
        (codes "Traceback"
          ∷ codes "File "
          ∷ codes "During handling"
          ∷ codes "The above exception"
          ∷ [])
        trimmed

  unfoldable pub terminates : TraceFlavor → Bytes → Bool
  terminates python_traceback line =
      let trimmed = p.trim_start line in
      if is_indented_or_blank line || continues trimmed
      then false
      else not (p.starts_uppercase trimmed)
  terminates js line = not (starts_with (codes "at ") (p.trim_start line)) && not (is_empty line)
  terminates java line = not (starts_with (codes "at ") (p.trim_start line)) && not (is_empty line)
  terminates rust_error line =
      not (starts_with (codes "--> ") (p.trim_start line)) && not (is_empty line)
  terminates go line = not (starts_digit (p.trim_start line)) && not (is_empty line)

  unfoldable pub is_summary_line : Bytes → Bool
  is_summary_line line =
      if starts_any (codes "===" ∷ codes "---" ∷ []) line || counts_outcomes line
      then true
      else elim (strip_first test_prefixes line) [
        | some rest ↦ starts_digit (p.trim_start rest)
        | none ↦
            starts_any (codes "TOTAL" ∷ codes "Total" ∷ codes "Summary" ∷ []) line
            || has_outcome line
      ]

  abbrev pub before_value : Bytes → Bytes
  before_value [] = []
  before_value (c ∷ s) =
      let rest = before_value s in if c == b':' || c == b'=' then [] else c ∷ rest

  -- The part before the first colon or equals sign stays as it is.
  unfoldable pub normalize_for_dedupe : Bytes → Bytes
  normalize_for_dedupe content =
      let prefix = before_value content in
      prefix ++ p.replace_paths (p.replace_hex (p.replace_digits (drop (length prefix) content)))
