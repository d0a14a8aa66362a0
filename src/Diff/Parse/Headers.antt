-- ===== src/Diff/Parse/Headers.antt =====
-- The sections that `parse_diff` finds, and what stands before them.
use lm_resizer.Diff.Parse.{
  Parser, new_file_at, push_hunk, flush, mark_file, file_line, parse_line, parse_lines,
  empty_parser, parse_diff,
}
use lm_resizer.Base.{
  ℕ, map-append_last, append_step, append_nil, Bool, true, false, ◌≡◌, refl, sym, ◌∙◌, ap, inl, inr,
  Option, none, some, List, [], ◌∷◌, ◌++◌, map, filter, Bytes, Bool-cases, Option-cases,
  if◌then◌else◌, ◌||◌, codes, starts_with,
}
use lm_resizer.Diff.{DiffHunk, DiffFile}
use lm_resizer.Diff.Patterns.{
  is_diff_header, is_old_file, is_new_file, is_binary_line, is_hunk_header,
}

-- The lines before the first header of a section.
abbrev pub before_header : List Bytes → List Bytes
before_header [] = []
before_header (l ∷ ls) = let rest = before_header ls in if is_diff_header l then [] else l ∷ rest

module _ {F : Type 0} (digit_width : Bytes → ℕ) (zero : F) where
  abbrev headers : List (DiffFile F) → List Bytes
  headers = map (λ f. f.header)

  header-push_hunk : (f : DiffFile F) (h : Option (DiffHunk F)) → (push_hunk f h).header ≡ f.header
  unfolding push_hunk
  header-push_hunk f none = refl
  header-push_hunk f (some h) = refl

  header-if :
      (b : Bool) (f g h : DiffFile F)
      → f.header ≡ h.header
      → g.header ≡ h.header
      → (if b then f else g).header ≡ h.header
  header-if true f g h heads other = heads
  header-if false f g h heads other = other

  header-mark_file : (f : DiffFile F) (line : Bytes) → (mark_file f line).header ≡ f.header
  unfolding mark_file
  header-mark_file f line = header-if (starts_with (codes "new file mode") line) _ _ f refl (
      header-if (starts_with (codes "deleted file mode") line) _ _ f refl (
        header-if
          (starts_with (codes "rename ") line
            || starts_with (codes "similarity ") line
            || starts_with (codes "copy ") line
            || starts_with (codes "dissimilarity ") line)
          _ _ f refl (header-if (is_binary_line line) _ _ f refl refl)))

  headers-flush :
      (p : Parser F) (f : DiffFile F)
      → p.current_file ≡ some f
      → headers (flush p) ≡ headers p.files ++ f.header ∷ []
  unfolding flush
  headers-flush p f here = rw (here) (
      map-append_last (λ g. g.header) p.files (push_hunk f p.current_hunk)
      ∙ ap (λ h. headers p.files ++ h ∷ []) (header-push_hunk f p.current_hunk))

  -- A line of a section leaves the finished files and the header of the current one alone.
  file_line-current :
      (p : Parser F) (f : DiffFile F) (line : Bytes)
      → ((file_line digit_width zero p f line).files ≡ p.files)
        × ((file_line digit_width zero p f line).pre_diff_lines ≡ p.pre_diff_lines)
        × ((g : DiffFile F) × ((file_line digit_width zero p f line).current_file ≡ some g)
            × (g.header ≡ f.header))
  unfolding file_line
  file_line-current p f line = elim (Bool-cases (is_old_file line)) [
    | inl old ↦ rw (old) (refl, refl, (record f { old_file = line }, refl, refl))
    | inr a ↦ elim (Bool-cases (is_new_file line)) [
      | inl new ↦ rw (a, new) (refl, refl, (record f { new_file = line }, refl, refl))
      | inr b ↦ elim (Bool-cases (is_hunk_header digit_width line)) [
        | inl hunk ↦
            rw (a, b, hunk)
              (refl, refl, (push_hunk f p.current_hunk, refl, header-push_hunk f p.current_hunk))
        | inr c ↦ rw (a, b, c) (refl, refl, (f, refl, refl))
      ]
    ]
  ]

  -- A line outside of every section opens none.
  none_found :
      (p : Parser F) (line : Bytes)
      → p.current_file ≡ none
      → headers (flush (record p { pre_diff_lines = p.pre_diff_lines ++ line ∷ [] }))
        ≡ headers (flush p)
  unfolding flush
  none_found p line outside = rw (outside) refl

  -- The three ways in which a line is taken.
  parse_line-heads :
      (p : Parser F) (line : Bytes)
      → is_diff_header line ≡ true
      → parse_line digit_width zero p line
        ≡ record p { files = flush p; current_file = some (new_file_at line); current_hunk = none }
  unfolding parse_line
  parse_line-heads p line heads = rw (heads, parse_line) refl

  parse_line-outside :
      (p : Parser F) (line : Bytes)
      → is_diff_header line ≡ false
      → p.current_file ≡ none
      → parse_line digit_width zero p line
        ≡ record p { pre_diff_lines = p.pre_diff_lines ++ line ∷ [] }
  unfolding parse_line
  parse_line-outside p line other outside = simp (other, outside) refl

  parse_line-inside :
      (p : Parser F) (line : Bytes) (f : DiffFile F)
      → is_diff_header line ≡ false
      → p.current_file ≡ some f
      → parse_line digit_width zero p line ≡ file_line digit_width zero p (mark_file f line) line
  unfolding parse_line
  parse_line-inside p line f other here = simp (other, here) refl

  headers-parse_heads :
      (p : Parser F) (line : Bytes)
      → is_diff_header line ≡ true
      → headers (flush (parse_line digit_width zero p line)) ≡ headers (flush p) ++ line ∷ []
  headers-parse_heads p line heads =
      ap (λ q. headers (flush q)) (parse_line-heads p line heads)
      ∙ headers-flush
          (record p {
            files = flush p;
            current_file = some (new_file_at line);
            current_hunk = none;
          })
          (new_file_at line) refl

  headers-parse_other :
      (p : Parser F) (line : Bytes)
      → is_diff_header line ≡ false
      → headers (flush (parse_line digit_width zero p line)) ≡ headers (flush p)
  headers-parse_other p line other = elim (Option-cases p.current_file) [
    | inl outside ↦
        ap (λ q. headers (flush q)) (parse_line-outside p line other outside)
        ∙ none_found p line outside
    | inr (f, here) ↦
        let (same, pre, (g, now, kept)) = file_line-current p (mark_file f line) line in
        ap (λ q. headers (flush q)) (parse_line-inside p line f other here)
        ∙ headers-flush (file_line digit_width zero p (mark_file f line) line) g now
        ∙ ap (λ fs. headers fs ++ g.header ∷ []) same
        ∙ ap (λ h. headers p.files ++ h ∷ []) (kept ∙ header-mark_file f line)
        ∙ sym (headers-flush p f here)
  ]

  headers-parse_lines :
      (p : Parser F) (lines : List Bytes)
      → headers (flush (parse_lines digit_width zero p lines))
        ≡ headers (flush p) ++ filter is_diff_header lines
  unfolding parse_lines
  headers-parse_lines p [] = sym (append_nil (headers (flush p)))
  headers-parse_lines p (line ∷ lines) =
      headers-parse_lines (parse_line digit_width zero p line) lines
      ∙ elim (Bool-cases (is_diff_header line)) [
        | inl heads ↦ rw (heads) (
            ap (λ hs. hs ++ filter is_diff_header lines) (headers-parse_heads p line heads)
            ∙ append_step (headers (flush p)) line (filter is_diff_header lines))
        | inr other ↦
            rw (other)
              (ap (λ hs. hs ++ filter is_diff_header lines) (headers-parse_other p line other))
      ]

  -- Once a section is begun, nothing more goes before the diff.
  pre-inside :
      (p : Parser F) (lines : List Bytes) (f : DiffFile F)
      → p.current_file ≡ some f
      → (parse_lines digit_width zero p lines).pre_diff_lines ≡ p.pre_diff_lines
  unfolding parse_lines
  pre-inside p [] f here = refl
  pre-inside p (line ∷ lines) f here = elim (Bool-cases (is_diff_header line)) [
    | inl heads ↦
        ap (λ q. (parse_lines digit_width zero q lines).pre_diff_lines)
          (parse_line-heads p line heads)
        ∙ pre-inside
            (record p {
              files = flush p;
              current_file = some (new_file_at line);
              current_hunk = none;
            })
            lines (new_file_at line) refl
    | inr other ↦
        let (same, pre, (g, now, kept)) = file_line-current p (mark_file f line) line in
        ap (λ q. (parse_lines digit_width zero q lines).pre_diff_lines)
          (parse_line-inside p line f other here)
        ∙ pre-inside (file_line digit_width zero p (mark_file f line) line) lines g now
        ∙ pre
  ]

  pre-outside :
      (p : Parser F) (lines : List Bytes)
      → p.current_file ≡ none
      → (parse_lines digit_width zero p lines).pre_diff_lines
        ≡ p.pre_diff_lines ++ before_header lines
  unfolding parse_lines
  pre-outside p [] outside = sym (append_nil p.pre_diff_lines)
  pre-outside p (line ∷ lines) outside = elim (Bool-cases (is_diff_header line)) [
    | inl heads ↦ rw (heads) (
        ap (λ q. (parse_lines digit_width zero q lines).pre_diff_lines)
          (parse_line-heads p line heads)
        ∙ pre-inside
            (record p {
              files = flush p;
              current_file = some (new_file_at line);
              current_hunk = none;
            })
            lines (new_file_at line) refl
        ∙ sym (append_nil p.pre_diff_lines))
    | inr other ↦ rw (other) (
        ap (λ q. (parse_lines digit_width zero q lines).pre_diff_lines)
          (parse_line-outside p line other outside)
        ∙ pre-outside (record p { pre_diff_lines = p.pre_diff_lines ++ line ∷ [] }) lines outside
        ∙ append_step p.pre_diff_lines line (before_header lines))
  ]

  -- The sections of a parsed diff are headed by the header lines of the text, all of them and in
  -- their order, and the lines before the first one are kept as they are.
  pub parse_diff-headers :
      (lines : List Bytes)
      → (map (λ f. f.header) (parse_diff digit_width zero lines).files
          ≡ filter is_diff_header lines)
        × ((parse_diff digit_width zero lines).pre_diff_lines ≡ before_header lines)
  unfolding parse_diff flush
  parse_diff-headers lines =
      (headers-parse_lines empty_parser lines, pre-outside empty_parser lines refl)
