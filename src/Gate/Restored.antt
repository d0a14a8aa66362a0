-- ===== src/Gate/Restored.antt =====
-- The text with its lost failure lines put back shows them all.
use lm_resizer.Gate.{
  Patterns, Run, lines_of, Counts, take_one, unlines, ends_with_newline, marker, next_run,
  kept_lines, key, count_present, not_present, lost_failure_lines, reinject_lost_failure_lines,
}
use lm_resizer.Base.{
  append_step, ◌+◌, ◌≤◌, ◌≡◌, refl, ◌∙◌, sym, ap, subst, inl, inr, true, ◌||◌, Option, none, List,
  [], ◌∷◌, ◌++◌, length, Bytes, bytes_eq, is_empty, ltb, ◌==◌, ==_iff, if◌then◌else◌, is_some,
  Bool-cases, arith, All, suc,
}
use lm_resizer.Gate.Lost.{key_count, key_count-lost_failure_lines}
use lm_resizer.Gate.Lines.{
  chomp, OneLine, OneLine-lines_of, lines_of-line, lines_of-Joined, Closes, at_end, last_line,
  earlier_line, lines_of-Closes,
}

newline_last : (u : Bytes) → ends_with_newline u ≡ true → (v : Bytes) × (u ≡ v ++ (10 ∷ []))
newline_last [] h = cc
newline_last (c ∷ []) h = ([], ap (λ x. x ∷ []) ((==_iff c 10).0 h))
newline_last (c ∷ d ∷ u) h = let (v, same) = newline_last (d ∷ u) h in (c ∷ v, ap (◌∷◌ c) same)

-- `trim` takes a carriage return off the end of a line.
module _ (p : Patterns) (trims_return : (line : Bytes) → p.trim (chomp line) ≡ p.trim line) where
  key_count-chomp :
      (q line : Bytes) (lines : List Bytes)
      → key_count p q (chomp line ∷ lines) ≡ key_count p q (line ∷ lines)
  unfolding key_count
  key_count-chomp q line lines =
      ap
        (λ t. if bytes_eq (p.strip_sgr t) q then suc (key_count p q lines) else key_count p q lines)
        (trims_return line)

  key_count-append :
      (q : Bytes) (xs ys : List Bytes)
      → key_count p q (xs ++ ys) ≡ key_count p q xs + key_count p q ys
  unfolding key_count
  key_count-append q [] ys = omega arith
  key_count-append q (x ∷ xs) ys = ground (arith, key_count-append q xs ys)

  key_count-Closes :
      (q : Bytes) {xs ys : List Bytes} → Closes xs ys → key_count p q xs ≤ key_count p q ys
  unfolding key_count
  key_count-Closes q at_end = ground arith
  key_count-Closes q (last_line c line) = omega (arith, key_count-chomp q (c ∷ line) [])
  key_count-Closes q (earlier_line line closes) = ground (arith, key_count-Closes q closes)

  key_count-joined :
      (q v s : Bytes)
      → key_count p q (lines_of (v ++ (10 ∷ s)))
        ≡ key_count p q (lines_of (v ++ (10 ∷ []))) + key_count p q (lines_of s)
  key_count-joined q v s =
      let j = lines_of-Joined v s in
      ap (key_count p q) j.both
      ∙ key_count-append q (j.first ∷ j.others) (lines_of s)
      ∙ ap (λ ls. key_count p q ls + key_count p q (lines_of s)) (sym j.alone)

  key_count-unlines :
      (q : Bytes) (lines : List Bytes)
      → All OneLine lines
      → key_count p q (lines_of (unlines lines)) ≡ key_count p q lines
  unfolding key_count lines_of
  key_count-unlines q [] all = refl
  key_count-unlines q (line ∷ lines) (one, all) =
      ap (key_count p q) (lines_of-line line (unlines lines) one)
      ∙ key_count-chomp q line (lines_of (unlines lines))
      ∙ ground (arith, key_count-unlines q lines all)

  OneLine-kept_lines :
      (run : Option Run) (lines : List Bytes)
      → All OneLine lines
      → All OneLine (kept_lines p run lines)
  unfolding kept_lines
  OneLine-kept_lines run [] all = tt
  OneLine-kept_lines run (line ∷ lines) (one, all) =
      elim (Bool-cases (is_some (next_run p run line))) [
        | inl kept ↦ rw (kept, kept_lines) (one, OneLine-kept_lines (next_run p run line) lines all)
        | inr past ↦ rw (past, kept_lines) (OneLine-kept_lines (next_run p run line) lines all)
      ]

  OneLine-not_present :
      (present : Counts) (lines : List Bytes)
      → All OneLine lines
      → All OneLine (not_present p present lines)
  unfolding not_present
  OneLine-not_present present [] all = tt
  OneLine-not_present present (line ∷ lines) (one, all) =
      elim (Bool-cases (ltb 0 (present (key p line)))) [
        | inl there ↦
            rw (there, not_present) (OneLine-not_present (take_one present (key p line)) lines all)
        | inr gone ↦ rw (gone, not_present) (one, OneLine-not_present present lines all)
      ]

  OneLine-lost : (before after : Bytes) → All OneLine (lost_failure_lines p before after)
  unfolding lost_failure_lines
  OneLine-lost before after = elim (Bool-cases (bytes_eq before after)) [
    | inl same ↦ rw (same) tt
    | inr other ↦ rw (other) (
        OneLine-not_present (count_present p (λ k. 0) (lines_of after))
          (kept_lines p none (lines_of before))
          (OneLine-kept_lines none (lines_of before) (OneLine-lines_of before)))
  ]

  -- What is put after the compressed text shows the lost lines.
  lost-le-added :
      (q m : Bytes) (lost : List Bytes)
      → All OneLine lost
      → key_count p q lost ≤ key_count p q (lines_of (m ++ (10 ∷ unlines lost)))
  lost-le-added q m lost all =
      omega (arith, key_count-joined q m (unlines lost), key_count-unlines q lost all)

  -- Where a line feed is put between them, if there is none, both texts show all their lines.
  both-le-joined :
      (q u s : Bytes)
      → key_count p q (lines_of u) + key_count p q (lines_of s)
        ≤ key_count p q
            (lines_of (u ++ ((if is_empty u || ends_with_newline u then [] else 10 ∷ []) ++ s)))
  unfolding lines_of key_count
  both-le-joined q [] s = omega arith
  both-le-joined q (c ∷ u) s = elim (Bool-cases (ends_with_newline (c ∷ u))) [
    | inl newline ↦
        let (v, same) = newline_last (c ∷ u) newline in
        rw (newline) (
          subst
            (λ x.
              key_count p q (lines_of x) + key_count p q (lines_of s)
              ≤ key_count p q (lines_of (x ++ s)))
            (sym same) (rw (append_step v 10 s) (omega (arith, key_count-joined q v s))))
    | inr bare ↦
        rw (bare) (
          omega (arith, key_count-joined q (c ∷ u) s, key_count-Closes q (lines_of-Closes (c ∷ u))))
  ]

  none_lost :
      (q : Bytes) (lines : List Bytes) → (length lines == 0) ≡ true → key_count p q lines ≡ 0
  unfolding key_count
  none_lost q [] h = refl
  none_lost q (line ∷ lines) h = absurd (ground (arith, h))

  -- Trimmed and without colours, the text with the lost failure lines put back shows every kept line
  -- of the original as often as the original does, or more often.
  pub reinject_lost_failure_lines_lem :
      (original compressed q : Bytes)
      → key_count p q (kept_lines p none (lines_of original))
        ≤ key_count p q (lines_of (reinject_lost_failure_lines p original compressed).0)
  unfolding reinject_lost_failure_lines
  reinject_lost_failure_lines_lem original compressed q =
      let lost = lost_failure_lines p original compressed in
      elim (Bool-cases (length lost == 0)) [
        | inl nothing ↦ rw (nothing) (
            omega (
              arith,
              key_count-lost_failure_lines p original compressed q,
              none_lost q lost nothing,
            ))
        | inr some_lost ↦ rw (some_lost) (
            omega (
              arith,
              key_count-lost_failure_lines p original compressed q,
              both-le-joined q compressed (marker (length lost) ++ (10 ∷ unlines lost)),
              lost-le-added q (marker (length lost)) lost (OneLine-lost original compressed),
            ))
      ]
