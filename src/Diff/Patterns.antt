-- ===== src/Diff/Patterns.antt =====
-- The patterns of crates/lm-resizer-core/src/transforms/diff_compressor.rs as tests of a line, which
-- holds no line feed. `\d` is any decimal digit of Unicode: a parameter, `digit_width`, says how many
-- bytes the digit at the front of a text has, 0 where there is none.
use lm_resizer.Base.{
  ℕ, zero, suc, any, take, unwrap_or, ◌+◌, ◌*◌, ◌-◌, ◌^◌, Bool, ◌&&◌, ◌||◌, not, Option, none, some,
  [], ◌∷◌, length, drop, Bytes, codes, starts_with, bytes_eq, is_empty, leb, ltb, ◌==◌,
  if◌then◌else◌, is_some, ◌>>=◌,
}

-- An ASCII digit.
abbrev pub is_digit : ℕ → Bool
is_digit c = leb b'0' c && leb c b'9'

-- The text after `p`, where the line begins with `p`.
abbrev pub after : Bytes → Bytes → Option Bytes
after p s = if starts_with p s then some (drop (length p) s) else none

-- `.+` after `p`, up to the end of the line.
abbrev pub has_more : Bytes → Bytes → Bool
has_more p s = starts_with p s && not (is_empty (drop (length p) s))

-- `q` and a byte at least after it, somewhere in the text.
abbrev pub has_inner : Bytes → Bytes → Bool
has_inner q [] = has_more q []
has_inner q (c ∷ s) = has_more q (c ∷ s) || has_inner q s

-- `^diff --git a/(.+) b/(.+)$`.
abbrev pub is_diff_git : Bytes → Bool
is_diff_git line =
    has_more (codes "diff --git a/") line
    && has_inner (codes " b/") (drop (length (codes "diff --git a/") + 1) line)

unfoldable pub is_diff_header : Bytes → Bool
is_diff_header line =
    is_diff_git line
    || has_more (codes "diff --combined ") line
    || has_more (codes "diff --cc ") line

unfoldable pub is_old_file : Bytes → Bool
is_old_file line = has_more (codes "--- a/") line || bytes_eq line (codes "--- /dev/null")

unfoldable pub is_new_file : Bytes → Bool
is_new_file line = has_more (codes "+++ b/") line || bytes_eq line (codes "+++ /dev/null")

-- The text ends with `q`.
abbrev pub ends_with : Bytes → Bytes → Bool
ends_with q s = ltb (length q) (length s + 1) && bytes_eq (drop (length s - length q) s) q

-- `^Binary files .+ differ$`.
unfoldable pub is_binary_line : Bytes → Bool
is_binary_line line =
    has_more (codes "Binary files ") line
    && ends_with (codes " differ") (drop (length (codes "Binary files ") + 1) line)

-- A number of decimal digits.
abbrev pub number : ℕ → Bytes → ℕ
number acc [] = acc
number acc (c ∷ s) = number (acc * 10 + (c - 48)) s

-- `parse::<usize>` of a text that is not empty.
abbrev pub parse_number : Bytes → Option ℕ
parse_number s =
    let n = number 0 s in if any (λ c. not (is_digit c)) s || leb (2 ^ 64) n then none else some n

module _ (digit_width : Bytes → ℕ) where
  -- The text after the digits at its front, `n` bytes of one of them being left.
  abbrev pub skip_digits : ℕ → Bytes → Bytes
  skip_digits n [] = []
  skip_digits zero (c ∷ s) =
      let width = digit_width (c ∷ s) in
      let rest = skip_digits (width - 1) s in if width == 0 then c ∷ s else rest
  skip_digits (suc n) (c ∷ s) = skip_digits n s

  -- `\d+`, and `,\d+` where it is there.
  abbrev pub digits : Bytes → Option Bytes
  digits s = if digit_width s == 0 then none else some (skip_digits 0 s)

  abbrev pub comma_digits : Bytes → Bytes
  comma_digits s = elim (after (codes ",") s >>= digits) [ some rest ↦ rest | none ↦ s ]

  -- A range behind `mark`: `mark\d+(?:,\d+)?`.
  abbrev pub range : Bytes → Bytes → Option Bytes
  range mark s = after mark s >>= digits >>= (λ rest. some (comma_digits rest))

  -- The three alternatives: two, three and four `@`, with one, two and three old ranges.
  unfoldable pub is_hunk_header : Bytes → Bool
  is_hunk_header line =
      is_some (range (codes "@@ -") line >>= range (codes " +") >>= after (codes " @@"))
      || is_some (
          range (codes "@@@ -") line
          >>= range (codes " -")
          >>= range (codes " +")
          >>= after (codes " @@@"))
      || is_some (
          range (codes "@@@@ -") line
          >>= range (codes " -")
          >>= range (codes " -")
          >>= range (codes " +")
          >>= after (codes " @@@@"))

  -- What `\+(\d+)` captures.
  abbrev pub new_range : Bytes → Option Bytes
  new_range [] = none
  new_range (c ∷ s) =
      let later = new_range s in
      elim (digits s) [
        | none ↦ later
        | some rest ↦ if c == b'+' then some (take (length s - length rest) s) else later
      ]

  -- A capture that does not parse, being over 64 bits or not of ASCII digits, counts as 0.
  unfoldable pub extract_line_number : Bytes → ℕ
  extract_line_number header = unwrap_or (new_range header >>= parse_number) 0
