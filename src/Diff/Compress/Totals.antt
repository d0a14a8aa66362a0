-- ===== src/Diff/Compress/Totals.antt =====
-- What `compress_with_store` reports: the files, the hunks kept and removed, and when the text is passed
-- through as it is.
use lm_resizer.Base.Lines.{split_lines}
use lm_resizer.Diff.Compress.{
  Outside, sum, total_additions, total_deletions, total_hunks, pass_through_result, score_file,
  score_hunks, more_changes, cap_files, compress_file, kept_files, removed_from, compress_files,
  emit_key, compress_with_store,
}
use lm_resizer.Base.{
  length-map, ℕ, ◌+◌, min, ◌≡◌, refl, ◌∙◌, sym, ap, inl, inr, Bool, true, false, ◌||◌, ◌&&◌, ◌⊎◌,
  Option, List, [], ◌∷◌, map, filter, length, length-take, Bytes, leb, ltb, Bool-cases, arith,
}
use lm_resizer.Base.Sort.{sort_by, length-sort_by}
use lm_resizer.Diff.{DiffFile, DiffCompressorConfig, DiffCompressionResult}
use lm_resizer.Diff.Patterns.{is_diff_header}
use lm_resizer.Diff.Parse.{parse_diff}
use lm_resizer.Diff.Parse.Headers.{parse_diff-headers}
use lm_resizer.Diff.Select.{select_hunks, length-select_hunks}
use lm_resizer.Diff.Context.{reduce_context}

-- The files that the text has.
abbrev pub header_count : Bytes → ℕ
header_count content = length (filter is_diff_header (split_lines content))

module _ {F S : Type 0} (o : Outside F S) (config : DiffCompressorConfig) where
  length-parse_diff :
      (content : Bytes)
      → length (parse_diff o.digit_width o.zero (split_lines content)).files ≡ header_count content
  length-parse_diff content =
      sym (length-map (λ f. f.header) (parse_diff o.digit_width o.zero (split_lines content)).files)
      ∙ ap length (parse_diff-headers o.digit_width o.zero (split_lines content)).0

  length-cap_files :
      (files : List (DiffFile F))
      → length (cap_files o config files) ≡ min config.max_files (length files)
  unfolding cap_files
  length-cap_files files = elim (Bool-cases (leb (length files) config.max_files)) [
    | inl fits ↦ rw (fits) (ground arith)
    | inr over ↦ rw (over) (
        ground (
          arith,
          length-take config.max_files (sort_by (more_changes o config) files),
          length-sort_by (more_changes o config) files,
        ))
  ]

  length-kept_files :
      (content context : Bytes)
      → length (kept_files o config content context) ≡ min config.max_files (header_count content)
  unfolding kept_files score_hunks
  length-kept_files content context =
      length-cap_files
        (score_hunks o config context (parse_diff o.digit_width o.zero (split_lines content)).files)
      ∙ ap (min config.max_files) (
          length-map (score_file o config context)
            (parse_diff o.digit_width o.zero (split_lines content)).files
          ∙ length-parse_diff content)

  hunks-compress_file :
      (f : DiffFile F)
      → length (compress_file o config f).hunks + removed_from o config f ≡ length f.hunks
  unfolding compress_file removed_from
  hunks-compress_file f = omega (
    arith,
    length-map (λ h. reduce_context h config.max_context_lines)
        (select_hunks o.digit_width o.greater f.hunks config.max_hunks_per_file).0,
    length-select_hunks o.digit_width o.greater f.hunks config.max_hunks_per_file,
  )

  hunks-compress_files :
      (files : List (DiffFile F))
      → total_hunks (map (compress_file o config) files) + sum (map (removed_from o config) files)
        ≡ total_hunks files
  hunks-compress_files [] = omega arith
  hunks-compress_files (f ∷ files) =
      omega (arith, hunks-compress_file f, hunks-compress_files files)

  -- Whether the text is passed through.
  abbrev pub passes_through : Bytes → Bool
  passes_through content =
      ltb (length (split_lines content)) config.min_lines_for_ccr || leb (header_count content) 0

  emitted :
      (content : Bytes) (r : DiffCompressionResult) (store : Option S)
      → ((emit_key o config content r store).0.files_affected ≡ r.files_affected)
        × ((emit_key o config content r store).0.hunks_kept
              + (emit_key o config content r store).0.hunks_removed
            ≡ r.hunks_kept + r.hunks_removed)
        × ((emit_key o config content r store).0.additions ≡ r.additions)
        × ((emit_key o config content r store).0.deletions ≡ r.deletions)
  unfolding emit_key
  emitted content r store =
      elim (Bool-cases
        (config.enable_ccr && o.meets_ratio r.compressed_line_count r.original_line_count)) [
          | inl keyed ↦ rw (keyed) (refl, refl, refl, refl)
          | inr plain ↦ rw (plain) (refl, refl, refl, refl)
        ]

  compressed_totals :
      (content : Bytes) (pre : List Bytes) (files : List (DiffFile F))
      → ((compress_files o config content pre files).files_affected ≡ length files)
        × ((compress_files o config content pre files).hunks_kept
              + (compress_files o config content pre files).hunks_removed
            ≡ total_hunks files)
        × ((compress_files o config content pre files).additions ≡ sum (map total_additions files))
        × ((compress_files o config content pre files).deletions ≡ sum (map total_deletions files))
  unfolding compress_files
  compressed_totals content pre files =
      (length-map (compress_file o config) files, hunks-compress_files files, refl, refl)

  compressed :
      (content context : Bytes) (store : Option S)
      → passes_through content ≡ false
      → compress_with_store o config content context store
        ≡ emit_key o config content
            (compress_files o config content
              (parse_diff o.digit_width o.zero (split_lines content)).pre_diff_lines
              (kept_files o config content context))
            store
  unfolding compress_with_store
  compressed content context store long = rw (length-parse_diff content) (rw (long) refl)

  -- A text that is shorter than the least number of lines, or that holds no header line, is passed
  -- through as it is, with no key and the store as it was. From any other the result has as many
  -- files as there are header lines, up to the cap on files; the hunks kept and those removed are
  -- together the hunks of these files; and the additions and deletions are the sums over them.
  pub compress_with_store_lem :
      (content context : Bytes) (store : Option S)
      → (passes_through content ≡ true)
          × (compress_with_store o config content context store
              ≡ (pass_through_result content (length (split_lines content)), store))
        ⊎ (passes_through content ≡ false)
          × ((compress_with_store o config content context store).0.files_affected
              ≡ min config.max_files (header_count content))
          × ((compress_with_store o config content context store).0.hunks_kept
                + (compress_with_store o config content context store).0.hunks_removed
              ≡ total_hunks (kept_files o config content context))
          × ((compress_with_store o config content context store).0.additions
              ≡ sum (map total_additions (kept_files o config content context)))
          × ((compress_with_store o config content context store).0.deletions
              ≡ sum (map total_deletions (kept_files o config content context)))
  unfolding compress_with_store
  compress_with_store_lem content context store = elim (Bool-cases (passes_through content)) [
    | inl short ↦ inl (short, rw (length-parse_diff content) (rw (short) refl))
    | inr long ↦
        let kept = kept_files o config content context in
        let pre = (parse_diff o.digit_width o.zero (split_lines content)).pre_diff_lines in
        let e = emitted content (compress_files o config content pre kept) store in
        let t = compressed_totals content pre kept in
        let same = compressed content context store long in
        inr (
          long,
          ap (λ x. x.0.files_affected) same ∙ e.0 ∙ t.0 ∙ length-kept_files content context,
          ap (λ x. x.0.hunks_kept + x.0.hunks_removed) same ∙ e.1 ∙ t.1,
          ap (λ x. x.0.additions) same ∙ e.2 ∙ t.2,
          ap (λ x. x.0.deletions) same ∙ e.3 ∙ t.3,
        )
  ]
