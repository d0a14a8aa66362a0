-- ===== src/Search/Parse/Plain.antt =====
-- search_compressor.rs: which printed matches parse.
use lm_resizer.Base.{
  ℕ, ◌^◌, ◌<◌, ◌≡◌, ◌≢◌, refl, ap, ◌∙◌, inl, inr, Bool, true, false, ◌&&◌, ◌||◌, not, some, [], ◌∷◌,
  ◌++◌, Bytes, Bool-cases, and-right, append_step, arith,
}
use lm_resizer.Base.Decimal.{decimal, digits-decimal, decimal-ne-nil, append_last-ne-nil}
use lm_resizer.Search.Select.{row}
use lm_resizer.Search.Parse.{
  is_separator, is_ascii_digit, marker_from, scan, is_drive, parse_match_line,
}
use lm_resizer.Search.Parse.Reparse.{
  Moves, scan-move, scan-row, is_drive-decimal, is_drive-third, parse_match_line-drive,
  parse_match_line-plain,
}

abbrev pub other_next : Bytes → Bool
other_next [] = false
other_next (d ∷ s) = not (is_ascii_digit d)

-- No separator of the path stands before a digit or at the end.
abbrev pub is_plain : Bytes → Bool
is_plain [] = true
is_plain (c ∷ s) = (not (is_separator c) || other_next s) && is_plain s

Moves-other :
    (c d : ℕ) (s : Bytes) (after_separator : Bool)
    → (not (is_separator c) || not (is_ascii_digit d)) ≡ true
    → Moves c after_separator (d ∷ s)
Moves-other c d s after_separator h = elim (Bool-cases (is_separator c)) [
  | inl sep ↦ inr (unfold marker_from in ground arith)
  | inr other ↦ inl (ground arith)
]

scan-plain :
    (g before : Bytes) (after_separator : Bool) (n : ℕ) (content : Bytes)
    → g ≢ []
    → is_plain g ≡ true
    → n < 2 ^ 64
    → scan before after_separator (row g n content) ≡ some (before ++ g, n, content)
unfolding row
scan-plain [] before after_separator n content some_file plain small = absurd (some_file refl)
scan-plain (c ∷ []) before after_separator n content some_file plain small =
    let other : is_separator c ≡ false = ground arith in
    scan-move c (row [] n content) before after_separator (inl (ground arith))
    ∙ ap (λ b. scan (before ++ (c ∷ [])) b (row [] n content)) other
    ∙ scan-row (before ++ (c ∷ [])) n content (append_last-ne-nil before c) small
scan-plain (c ∷ d ∷ g) before after_separator n content some_file plain small =
    scan-move c (row (d ∷ g) n content) before after_separator
      (Moves-other c d (row g n content) after_separator (ground arith))
    ∙ scan-plain (d ∷ g) (before ++ (c ∷ [])) (is_separator c) n content (cc) (and-right _ _ plain)
        small
    ∙ ap (λ f. some (f, n, content)) (append_step before c (d ∷ g))

-- A row is read as the match that it prints if no separator (a colon or a dash) of its path stands
-- before a digit or at the end of the path, the path is not empty, and the line number is one of 64
-- bits. The content may hold anything.
pub parse_match_line-plain_row :
    (file : Bytes) (n : ℕ) (content : Bytes)
    → file ≢ []
    → is_plain file ≡ true
    → n < 2 ^ 64
    → parse_match_line (row file n content) ≡ some (file, n, content)
unfolding row
parse_match_line-plain_row [] n content some_file plain small = absurd (some_file refl)
parse_match_line-plain_row (a ∷ []) n content some_file plain small =
    parse_match_line-plain (row (a ∷ []) n content)
      (is_drive-decimal a b':' (decimal n) (b':' ∷ content) (digits-decimal n) (decimal-ne-nil n))
    ∙ scan-plain (a ∷ []) [] false n content some_file plain small
parse_match_line-plain_row (a ∷ b ∷ []) n content some_file plain small =
    parse_match_line-plain (row (a ∷ b ∷ []) n content)
      (is_drive-third a b b':' (decimal n ++ (b':' ∷ content)) refl)
    ∙ scan-plain (a ∷ b ∷ []) [] false n content some_file plain small
parse_match_line-plain_row (a ∷ b ∷ c ∷ g) n content some_file plain small =
    elim (Bool-cases (is_drive (a ∷ b ∷ c ∷ row g n content))) [
      | inl drive ↦
          parse_match_line-drive a b (c ∷ row g n content) drive
          ∙ scan-plain (c ∷ g) (a ∷ b ∷ []) true n content (cc)
              (and-right _ _ (and-right _ _ plain)) small
      | inr other ↦
          parse_match_line-plain (a ∷ b ∷ c ∷ row g n content) other
          ∙ scan-plain (a ∷ b ∷ c ∷ g) [] false n content some_file plain small
    ]
