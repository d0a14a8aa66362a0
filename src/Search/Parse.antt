-- ===== src/Search/Parse.antt =====
-- search_compressor.rs: `parse_match_line` and `parse_search_results`. A line is walked from the left
-- with the bytes before the place at hand, and with whether the last of them is a separator.
pub mod Reparse
pub mod Plain
use lm_resizer.Base.{
  ℕ, ◌+◌, ◌*◌, ◌-◌, ◌^◌, Bool, true, false, ◌&&◌, ◌||◌, not, Option, none, some, List, [], ◌∷◌,
  ◌++◌, length, take, drop, Bytes, is_empty, is_ascii_alphabetic, leb, ltb, ◌==◌, if◌then◌else◌,
}
use lm_resizer.Base.Decimal.{value}
use lm_resizer.Base.TreeMap.{update}
use lm_resizer.Search.{SearchMatch, FileMatches, Files, SearchCompressorStats}

abbrev pub is_separator : ℕ → Bool
is_separator c = c == b':' || c == b'-'

abbrev pub is_ascii_digit : ℕ → Bool
is_ascii_digit c = leb b'0' c && leb c b'9'

-- After a first separator: the digits up to a second one, and what follows it.
unfoldable pub marker_from : Bytes → Bytes → Option (Bytes × Bytes)
marker_from digits [] = none
marker_from digits (c ∷ s) =
    let more = marker_from (digits ++ (c ∷ [])) s in
    if is_ascii_digit c
    then more
    else if not (is_empty digits) && is_separator c
    then some (digits, s)
    else none

-- `s.parse::<u64>()` on digits.
abbrev pub parse_u64 : Bytes → Option ℕ
parse_u64 digits = if ltb (value 0 digits) (2 ^ 64) then some (value 0 digits) else none

-- At a marker: the file is what stands before it, and must not be empty.
unfoldable pub found : Bytes → Bytes → Bytes → Option (Bytes × ℕ × Bytes)
found file digits content =
    if is_empty file
    then none
    else elim (parse_u64 digits) [ none ↦ none | some line_no ↦ some (file, line_no, content) ]

unfoldable pub scan : Bytes → Bool → Bytes → Option (Bytes × ℕ × Bytes)
scan before after_separator [] = none
scan before after_separator (c ∷ s) =
    let rest = scan (before ++ (c ∷ [])) (is_separator c) s in
    if is_separator c && not after_separator
    then elim (marker_from [] s) [
      | none ↦ rest
      | some (digits, content) ↦ found before digits content
    ]
    else rest

-- `C:\` or `C:/`.
unfoldable pub is_drive : Bytes → Bool
is_drive (a ∷ b ∷ c ∷ s) = is_ascii_alphabetic a && b == b':' && (c == 92 || c == b'/')
is_drive s = false

unfoldable pub parse_match_line : Bytes → Option (Bytes × ℕ × Bytes)
parse_match_line line =
    if is_drive line then scan (take 2 line) true (drop 2 line) else scan [] false line

module _ {F : Type 0} (zero : F) (trim : Bytes → Bytes) where
  abbrev pub new_match : Bytes → ℕ → Bytes → SearchMatch F
  new_match file line_number content = record {
    file = file;
    line_number = line_number;
    content = content;
    score = zero;
  }

  -- The entry of a file with one more match.
  abbrev pub push_match : SearchMatch F → Option (FileMatches F) → FileMatches F
  push_match m none = record { file = m.file; matches = m ∷ [] }
  push_match m (some fm) = record fm { matches = fm.matches ++ (m ∷ []) }

  unfoldable pub add_line :
      Bytes → Files F × SearchCompressorStats → Files F × SearchCompressorStats
  add_line raw (out, stats) =
      let scanned = record stats { lines_scanned = stats.lines_scanned + 1 } in
      if is_empty (trim raw) then (out, stats) else elim (parse_match_line (trim raw)) [
        | none ↦ (out, record scanned { lines_unparsed = stats.lines_unparsed + 1 })
        | some (file, line_no, body) ↦
            (update file (push_match (new_match file line_no body)) out, scanned)
      ]

  unfoldable pub parse_search_results :
      List Bytes → Files F × SearchCompressorStats → Files F × SearchCompressorStats
  parse_search_results [] acc = acc
  parse_search_results (raw ∷ lines) acc = parse_search_results lines (add_line raw acc)
