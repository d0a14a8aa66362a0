-- ===== src/Search/Compress/Printed.antt =====
-- search_compressor.rs: the lines that `format_output` prints.
use lm_resizer.Base.{
  ℕ, ◌≡◌, refl, sym, subst, ◌⊎◌, inl, inr, Bool, true, false, none, some, List, [], ◌∷◌, ◌++◌, map,
  length, Bytes, All, All-In, In, ltb, if◌then◌else◌, append_assoc, append_nil, length-append,
  arith,
}
use lm_resizer.Base.Lines.{join}
use lm_resizer.Base.Decimal.{decimal}
use lm_resizer.Base.TreeMap.{TreeMap, insert}
use lm_resizer.Search.{SearchMatch, FileMatches, Files}
use lm_resizer.Search.Select.{row, match_count}
use lm_resizer.Search.Compress.{
  summary_line, omitted_in, match_rows, add_file, add_files, format_output,
}

module _ {F : Type 0} where
  -- The matches, file by file.
  abbrev pub all_matches : Files F → List (SearchMatch F)
  all_matches [] = []
  all_matches (e ∷ files) = e.1.matches ++ all_matches files

  pub length-all_matches : (files : Files F) → length (all_matches files) ≡ match_count files
  unfolding match_count
  length-all_matches [] = refl
  length-all_matches (e ∷ files) =
      omega (arith, length-append e.1.matches (all_matches files), length-all_matches files)

module _ {F : Type 0} (grouped : Bool) (selected : Files F) where
  abbrev pub row_of : SearchMatch F → Bytes
  row_of m =
      if grouped
      then decimal m.line_number ++ (b':' ∷ m.content)
      else row m.file m.line_number m.content

  -- A line that shows no match: the note on what a selected file leaves out, or, in groups, the name of
  -- a selected file or a blank line.
  abbrev pub IsNote : Bytes → Type 0
  IsNote line =
      ((e : Bytes × FileMatches F) × (n : ℕ) × In e selected × (line ≡ summary_line grouped n e.0))
      ⊎ ((grouped ≡ true)
          × ((line ≡ []) ⊎ ((e : Bytes × FileMatches F) × In e selected × (line ≡ e.0))))

  -- The lines show the matches, each in one line and in their order; the other lines are notes.
  abbrev pub Shows : List (SearchMatch F) → List Bytes → Type 0
  Shows [] [] = Unit
  Shows (m ∷ ms) [] = ⊥
  Shows [] (line ∷ lines) = IsNote line × Shows [] lines
  Shows (m ∷ ms) (line ∷ lines) =
      ((line ≡ row_of m) × Shows ms lines) ⊎ (IsNote line × Shows (m ∷ ms) lines)

  Shows-note :
      (ms : List (SearchMatch F)) (line : Bytes) (lines : List Bytes)
      → IsNote line
      → Shows ms lines
      → Shows ms (line ∷ lines)
  Shows-note [] line lines note h = (note, h)
  Shows-note (m ∷ ms) line lines note h = inr (note, h)

  Shows-append :
      (ms ns : List (SearchMatch F)) (lines more : List Bytes)
      → Shows ms lines
      → Shows ns more
      → Shows (ms ++ ns) (lines ++ more)
  Shows-append [] ns [] more h k = k
  Shows-append (m ∷ ms) ns [] more h k = absurd h
  Shows-append [] ns (line ∷ lines) more (note, h) k =
      Shows-note ns line (lines ++ more) note (Shows-append [] ns lines more h k)
  Shows-append (m ∷ ms) ns (line ∷ lines) more (inl (e, h)) k =
      inl (e, Shows-append ms ns lines more h k)
  Shows-append (m ∷ ms) ns (line ∷ lines) more (inr (note, h)) k =
      inr (note, Shows-append (m ∷ ms) ns lines more h k)

  Shows-rows : (ms : List (SearchMatch F)) → Shows ms (map row_of ms)
  Shows-rows [] = tt
  Shows-rows (m ∷ ms) = inl (refl, Shows-rows ms)

-- The rows of a file that is selected.
match_rows-Shows :
    {F : Type 0} (grouped : Bool) (selected : Files F) (blank : Bool) (e : Bytes × FileMatches F)
    → In e selected
    → Shows grouped selected e.1.matches (match_rows grouped blank e.0 e.1.matches)
unfolding match_rows
match_rows-Shows false selected blank e at = Shows-rows false selected e.1.matches
match_rows-Shows true selected true e at =
    Shows-note true selected e.1.matches [] _ (inr (refl, inl refl)) (
      Shows-note true selected e.1.matches e.0 _ (inr (refl, inr (e, at, refl)))
        (Shows-rows true selected e.1.matches))
match_rows-Shows true selected false e at =
    Shows-note true selected e.1.matches e.0 _ (inr (refl, inr (e, at, refl)))
      (Shows-rows true selected e.1.matches)

module _ {F : Type 0} (grouped : Bool) (selected : Files F) where
  add_file-Shows :
      (original : Files F) (e : Bytes × FileMatches F) (ms : List (SearchMatch F))
      (out : List Bytes × TreeMap Bytes)
      → In e selected
      → Shows grouped selected ms out.0
      → Shows grouped selected (ms ++ e.1.matches) (add_file grouped original e out).0
  unfolding add_file
  add_file-Shows original e ms (lines, summaries) at h =
      let rows = match_rows grouped (ltb 0 (length lines)) e.0 e.1.matches in
      let shown =
        Shows-append grouped selected ms e.1.matches lines rows h
          (match_rows-Shows grouped selected (ltb 0 (length lines)) e at) in
      elim (omitted_in original e.0 e.1.matches)
        as (λ o.
          Shows grouped selected (ms ++ e.1.matches)
            (elim o as (λ o. List Bytes × TreeMap Bytes) [
              | none ↦ (lines ++ rows, summaries)
              | some n ↦ (
                (lines ++ rows) ++ (summary_line grouped n e.0 ∷ []),
                insert e.0 (summary_line grouped n e.0) summaries,
              )
            ]).0) [
              | none ↦ shown
              | some n ↦
                  subst
                    (λ l.
                      Shows grouped selected l
                        ((lines ++ rows) ++ (summary_line grouped n e.0 ∷ [])))
                    (append_nil (ms ++ e.1.matches))
                    (Shows-append grouped selected (ms ++ e.1.matches) [] (lines ++ rows) _ shown
                      (inl (e, n, at, refl), tt))
            ]

  add_files-Shows :
      (original files : Files F) (ms : List (SearchMatch F)) (out : List Bytes × TreeMap Bytes)
      → All (λ e. In e selected) files
      → Shows grouped selected ms out.0
      → Shows grouped selected (ms ++ all_matches files) (add_files grouped original files out).0
  unfolding add_files
  add_files-Shows original [] ms out at h =
      subst (λ l. Shows grouped selected l out.0) (sym (append_nil ms)) h
  add_files-Shows original (e ∷ files) ms out (at, rest) h =
      subst (λ l. Shows grouped selected l (add_files grouped original (e ∷ files) out).0)
        (append_assoc ms e.1.matches (all_matches files))
        (add_files-Shows original files (ms ++ e.1.matches) (add_file grouped original e out) rest
          (add_file-Shows original e ms out at h))

  -- A text that shows the matches in lines, each match in one.
  abbrev pub IsPrint : Bytes → Type 0
  IsPrint text =
      (lines : List Bytes) × (text ≡ join (10 ∷ []) lines)
      × Shows grouped selected (all_matches selected) lines

  pub format_output-IsPrint :
      (original : Files F) → IsPrint (format_output grouped selected original).0
  unfolding format_output
  format_output-IsPrint original = (
    (add_files grouped original selected ([], [])).0,
    refl,
    add_files-Shows original selected [] ([], []) (All-In selected) tt,
  )
