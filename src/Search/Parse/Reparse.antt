-- ===== src/Search/Parse/Reparse.antt =====
-- search_compressor.rs: a printed match parses back.
use lm_resizer.Base.{
  ℕ, ◌^◌, ◌<◌, ◌≡◌, ◌≢◌, refl, sym, ap, ◌∙◌, subst, ◌⊎◌, inl, inr, Bool, true, false, ◌&&◌, ◌||◌,
  not, none, some, [], ◌∷◌, ◌++◌, All, Bytes, is_empty, is_ascii_alphabetic, ◌==◌, append_nil,
  append_assoc, append_step, Bool-cases, Option-cases, arith,
}
use lm_resizer.Base.Decimal.{decimal, IsDigit, digits-decimal, value-decimal, decimal-ne-nil}
use lm_resizer.Search.Select.{row}
use lm_resizer.Search.Parse.{
  is_separator, is_ascii_digit, marker_from, found, scan, is_drive, parse_match_line,
}

-- Whether there is a marker depends on the byte after the file only in that it is a separator.
marker_from-other_end :
    (u : Bytes) (x y : ℕ) (s t digits : Bytes)
    → is_separator x ≡ true
    → is_separator y ≡ true
    → marker_from digits (u ++ x ∷ s) ≡ none
    → marker_from digits (u ++ y ∷ t) ≡ none
unfolding marker_from
marker_from-other_end [] x y s t digits sx sy h = ground arith
marker_from-other_end (c ∷ u) x y s t digits sx sy h =
    ground (arith, marker_from-other_end u x y s t (digits ++ (c ∷ [])))

is_empty-nil : (u : Bytes) → is_empty u ≡ true → u ≡ []
is_empty-nil [] h = refl
is_empty-nil (c ∷ u) h = cc

digit_lem : (d : ℕ) → IsDigit d → is_ascii_digit d ≡ true
digit_lem d h = ground arith

-- Digits and a separator are a marker.
pub marker_from-digits :
    (ds digits s : Bytes)
    → All IsDigit ds
    → digits ++ ds ≢ []
    → marker_from digits (ds ++ b':' ∷ s) ≡ some (digits ++ ds, s)
unfolding marker_from
marker_from-digits [] digits s h some_digit = ground (arith, append_nil digits, is_empty-nil digits)
marker_from-digits (d ∷ ds) digits s (digit, h) some_digit =
    let e = append_step digits d ds in
    rw (digit_lem d digit) (
      marker_from-digits ds (digits ++ d ∷ []) s h (λ empty. some_digit (sym e ∙ empty))
      ∙ ap (λ all. some (all, s)) e)

-- What follows the first separator of a marker begins with a digit.
marker_from-digit :
    (t ds content : Bytes)
    → marker_from [] t ≡ some (ds, content)
    → (d : ℕ) × (u : Bytes) × (t ≡ d ∷ u) × (is_ascii_digit d ≡ true)
unfolding marker_from
marker_from-digit [] ds content h = cc
marker_from-digit (d ∷ u) ds content h = (d, u, refl, ground arith)

found_lem :
    (before ds content file rest : Bytes) (n : ℕ)
    → found before ds content ≡ some (file, n, rest)
    → (file ≡ before) × (before ≢ []) × (rest ≡ content) × (n < 2 ^ 64)
unfolding found
found_lem [] ds content file rest n h = cc
found_lem (b ∷ before) ds content file rest n h = ground arith

found-decimal :
    (before content : Bytes) (n : ℕ)
    → before ≢ []
    → n < 2 ^ 64
    → found before (decimal n) content ≡ some (before, n, content)
unfolding found
found-decimal [] content n some_file h = absurd (some_file refl)
found-decimal (b ∷ before) content n some_file h = rw (value-decimal n) (ground arith)

-- A line that parses from `before` on has the rest of its file, a separator and a digit in front;
-- and what is printed of the match parses from there as well.
abbrev Again : Bytes → Bool → Bytes → Bytes → ℕ → Bytes → Type 0
Again before after_separator s file n content =
    (g : Bytes) × (x : ℕ) × (d : ℕ) × (t : Bytes) × (file ≡ before ++ g)
    × (s ≡ g ++ x ∷ d ∷ t)
    × (is_separator x ≡ true)
    × (is_ascii_digit d ≡ true)
    × (n < 2 ^ 64)
    × (scan before after_separator (row g n content) ≡ some (file, n, content))

-- No marker begins after `c`.
abbrev pub Moves : ℕ → Bool → Bytes → Type 0
Moves c after_separator s =
    ((is_separator c && not after_separator) ≡ false) ⊎ (marker_from [] s ≡ none)

pub scan-move :
    (c : ℕ) (s before : Bytes) (after_separator : Bool)
    → Moves c after_separator s
    → scan before after_separator (c ∷ s) ≡ scan (before ++ (c ∷ [])) (is_separator c) s
unfolding scan
scan-move c s before after_separator (inl h) = rw (h) refl
scan-move c s before after_separator (inr h) = ground arith

Moves-row :
    (c : ℕ) (g : Bytes) (x : ℕ) (s : Bytes) (after_separator : Bool) (n : ℕ) (content : Bytes)
    → is_separator x ≡ true
    → Moves c after_separator (g ++ x ∷ s)
    → Moves c after_separator (row g n content)
unfolding row
Moves-row c g x s after_separator n content sep (inl h) = inl h
Moves-row c g x s after_separator n content sep (inr h) =
    inr (marker_from-other_end g x b':' s (decimal n ++ (b':' ∷ content)) [] sep refl h)

Again-move :
    (c : ℕ) (s before : Bytes) (after_separator : Bool) (file : Bytes) (n : ℕ) (content : Bytes)
    → Moves c after_separator s
    → Again (before ++ c ∷ []) (is_separator c) s file n content
    → Again before after_separator (c ∷ s) file n content
unfolding row
Again-move c s before after_separator file n content moves
      (g, x, d, t, e, split, sep, digit, small, again) =
    (
      c ∷ g,
      x,
      d,
      t,
      e ∙ append_step before c g,
      ap (◌∷◌ c) split,
      sep,
      digit,
      small,
      scan-move c (row g n content) before after_separator (
            Moves-row c g x (d ∷ t) after_separator n content sep
              (subst (Moves c after_separator) split moves))
          ∙ again,
    )

pub scan-row :
    (before : Bytes) (n : ℕ) (content : Bytes)
    → before ≢ []
    → n < 2 ^ 64
    → scan before false (row [] n content) ≡ some (before, n, content)
unfolding scan row
scan-row before n content some_file small =
    rw (marker_from-digits (decimal n) [] content (digits-decimal n) (decimal-ne-nil n))
      (found-decimal before content n some_file small)

Again-here :
    (c : ℕ) (s before ds rest file : Bytes) (n : ℕ) (content : Bytes)
    → is_separator c ≡ true
    → marker_from [] s ≡ some (ds, rest)
    → found before ds rest ≡ some (file, n, content)
    → Again before false (c ∷ s) file n content
Again-here c s before ds rest file n content sep mark h =
    let (e, some_file, same, small) = found_lem before ds rest file content n h in
    let (d, u, split, digit) = marker_from-digit s ds rest mark in
    (
      [],
      c,
      d,
      u,
      e ∙ sym (append_nil before),
      ap (◌∷◌ c) split,
      sep,
      digit,
      small,
      scan-row before n content some_file small ∙ ap (λ f. some (f, n, content)) (sym e),
    )

scan-here :
    (c : ℕ) (s before : Bytes) (after_separator : Bool) (ds rest : Bytes)
    → (is_separator c && not after_separator) ≡ true
    → marker_from [] s ≡ some (ds, rest)
    → scan before after_separator (c ∷ s) ≡ found before ds rest
unfolding scan
scan-here c s before after_separator ds rest test mark = ground arith

move-Again :
    (c : ℕ) (s before : Bytes) (after_separator : Bool) (file : Bytes) (n : ℕ) (content : Bytes)
    → Moves c after_separator s
    → scan before after_separator (c ∷ s) ≡ some (file, n, content)
    → (scan (before ++ (c ∷ [])) (is_separator c) s ≡ some (file, n, content)
        → Again (before ++ c ∷ []) (is_separator c) s file n content)
    → Again before after_separator (c ∷ s) file n content
move-Again c s before after_separator file n content moves h later =
    Again-move c s before after_separator file n content moves
      (later (sym (scan-move c s before after_separator moves) ∙ h))

scan-Again :
    (s before : Bytes) (after_separator : Bool) (file : Bytes) (n : ℕ) (content : Bytes)
    → scan before after_separator s ≡ some (file, n, content)
    → Again before after_separator s file n content
scan-Again [] before after_separator file n content h = unfold scan in cc
scan-Again (c ∷ s) before true file n content h =
    move-Again c s before true file n content (inl (ground arith)) h
      (scan-Again s (before ++ (c ∷ [])) (is_separator c) file n content)
scan-Again (c ∷ s) before false file n content h = elim (Bool-cases (is_separator c)) [
  | inl sep ↦ elim (Option-cases (marker_from [] s)) [
    | inl no_marker ↦
        move-Again c s before false file n content (inr no_marker) h
          (scan-Again s (before ++ (c ∷ [])) (is_separator c) file n content)
    | inr ((ds, rest), mark) ↦
        Again-here c s before ds rest file n content sep mark
          (sym (scan-here c s before false ds rest (ground arith) mark) ∙ h)
  ]
  | inr other ↦
      move-Again c s before false file n content (inl (ground arith)) h
        (scan-Again s (before ++ (c ∷ [])) (is_separator c) file n content)
]

is_drive-first : (a : ℕ) (s : Bytes) → is_ascii_alphabetic a ≡ false → is_drive (a ∷ s) ≡ false
unfolding is_drive
is_drive-first a [] h = refl
is_drive-first a (b ∷ []) h = refl
is_drive-first a (b ∷ c ∷ s) h = rw (h) refl

pub is_drive-third :
    (a b c : ℕ) (s : Bytes) → (c == 92 || c == b'/') ≡ false → is_drive (a ∷ b ∷ c ∷ s) ≡ false
unfolding is_drive
is_drive-third a b c s h = ground arith

pub is_drive-decimal :
    (a b : ℕ) (ds s : Bytes) → All IsDigit ds → ds ≢ [] → is_drive (a ∷ b ∷ ds ++ s) ≡ false
is_drive-decimal a b [] s digits some_digit = absurd (some_digit refl)
is_drive-decimal a b (c ∷ ds) s digits some_digit = is_drive-third a b c (ds ++ s) (ground arith)

-- The drive letter of a printed match is that of its line.
is_drive-row :
    (g : Bytes) (x d : ℕ) (t : Bytes) (n : ℕ) (content : Bytes)
    → is_separator x ≡ true
    → is_ascii_digit d ≡ true
    → is_drive (row g n content) ≡ is_drive (g ++ x ∷ d ∷ t)
unfolding row
is_drive-row [] x d t n content sep digit =
    is_drive-first b':' (decimal n ++ (b':' ∷ content)) refl
    ∙ sym (is_drive-first x (d ∷ t) (ground arith))
is_drive-row (a ∷ []) x d t n content sep digit =
    is_drive-decimal a b':' (decimal n) (b':' ∷ content) (digits-decimal n) (decimal-ne-nil n)
    ∙ sym (is_drive-third a x d t (ground arith))
is_drive-row (a ∷ b ∷ []) x d t n content sep digit =
    is_drive-third a b b':' (decimal n ++ (b':' ∷ content)) refl
    ∙ sym (is_drive-third a b x (d ∷ t) (ground arith))
is_drive-row (a ∷ b ∷ c ∷ g) x d t n content sep digit = unfold is_drive in refl

reparse :
    (head s file : Bytes) (drive : Bool) (n : ℕ) (content : Bytes)
    → is_drive (head ++ s) ≡ drive
    → scan head drive s ≡ some (file, n, content)
    → (rest : Bytes) × (is_drive (row file n content) ≡ drive)
      × (row file n content ≡ head ++ rest)
      × (scan head drive rest ≡ some (file, n, content))
unfolding row
reparse head s file drive n content is h =
    let (g, x, d, t, e, split, sep, digit, small, again) =
      scan-Again s head drive file n content h in
    (
      row g n content,
      ap (λ f. is_drive (row f n content)) e
          ∙ is_drive-row (head ++ g) x d t n content sep digit
          ∙ ap is_drive (append_assoc head g (x ∷ d ∷ t) ∙ ap (λ u. head ++ u) (sym split))
          ∙ is,
      ap (λ f. row f n content) e ∙ append_assoc head g (b':' ∷ (decimal n ++ (b':' ∷ content))),
      again,
    )

two_bytes :
    (line : Bytes) → is_drive line ≡ true → (a : ℕ) × (b : ℕ) × (s : Bytes) × (line ≡ a ∷ b ∷ s)
unfolding is_drive
two_bytes [] h = cc
two_bytes (a ∷ []) h = cc
two_bytes (a ∷ b ∷ s) h = (a, b, s, refl)

pub parse_match_line-drive :
    (a b : ℕ) (s : Bytes)
    → is_drive (a ∷ b ∷ s) ≡ true
    → parse_match_line (a ∷ b ∷ s) ≡ scan (a ∷ b ∷ []) true s
unfolding parse_match_line
parse_match_line-drive a b s h = rw (h) refl

pub parse_match_line-plain :
    (line : Bytes) → is_drive line ≡ false → parse_match_line line ≡ scan [] false line
unfolding parse_match_line
parse_match_line-plain line h = rw (h) refl

-- Whatever line a match was read from, the row that is printed of it reads as the same match: the
-- same file, line number and content.
pub parse_match_line-row :
    (line file : Bytes) (n : ℕ) (content : Bytes)
    → parse_match_line line ≡ some (file, n, content)
    → parse_match_line (row file n content) ≡ some (file, n, content)
parse_match_line-row line file n content h = elim (Bool-cases (is_drive line)) [
  | inl drive ↦
      let (a, b, s, e) = two_bytes line drive in
      let drive' = subst (λ l. is_drive l ≡ true) e drive in
      let h' = subst (λ l. parse_match_line l ≡ some (file, n, content)) e h in
      let (rest, is, same, again) =
        reparse (a ∷ b ∷ []) s file true n content drive'
          (sym (parse_match_line-drive a b s drive') ∙ h') in
      ap parse_match_line same
      ∙ parse_match_line-drive a b rest (subst (λ l. is_drive l ≡ true) same is)
      ∙ again
  | inr plain ↦
      let (rest, is, same, again) =
        reparse [] line file false n content plain (sym (parse_match_line-plain line plain) ∙ h) in
      parse_match_line-plain (row file n content) is ∙ ap (scan [] false) same ∙ again
]
