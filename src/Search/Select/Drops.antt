-- ===== src/Search/Select/Drops.antt =====
-- search_compressor.rs: what `select_matches` keeps of all files, and what its statistics say.
use lm_resizer.Base.{
  ℕ, ◌+◌, ◌-◌, ◌≤◌, min, ◌≡◌, refl, subst, inl, inr, true, false, none, [], ◌∷◌, length, take, All,
  All-take, All-In, In, Bytes, bytes_eq, leb, ltb, if◌then◌else◌, Bool-cases, arith,
}
use lm_resizer.Base.Sort.{sort_by}
use lm_resizer.Base.Sort.Members.{All-sort_by}
use lm_resizer.Base.TreeMap.{update, insert, get}
use lm_resizer.Base.TreeMap.Laws.{
  Distinct, Distinct-sort_by, Distinct-take, All-insert_new, get-insert_ne, bytes_eq_sym,
}
use lm_resizer.Search.{FileMatches, Files, SearchCompressorConfig, SearchCompressorStats}
use lm_resizer.Search.Select.{
  Ranking, Selection, better_file, match_count, select_in_file, select_file, select_files,
  best_files, adaptive_total, start, select_matches,
}
use lm_resizer.Search.Select.Caps.{select_in_file_lem}

module _ {F : Type 0} where
  match_count-insert :
      (k : Bytes) (fm : FileMatches F) (m : Files F)
      → get k m ≡ none
      → match_count (insert k fm m) ≡ match_count m + length fm.matches
  unfolding match_count insert update get
  match_count-insert k fm [] h = omega arith
  match_count-insert k fm ((j, v) ∷ m) h = ground (arith, match_count-insert k fm m)

module _ {F D : Type 0} (r : Ranking F D) (config : SearchCompressorConfig) where
  -- Every match of the files so far is selected, or counted as dropped.
  record IsCounted (considered : ℕ) (stats : SearchCompressorStats) (adaptive_total : ℕ)
      (s : Selection F) : Type 0 where
    counted : match_count s.selected ≡ s.total_selected
    within : s.total_selected ≤ adaptive_total
    balanced :
        s.total_selected + s.stats.matches_dropped_by_per_file_cap
          + s.stats.matches_dropped_by_global_cap
        ≡ considered + stats.matches_dropped_by_per_file_cap + stats.matches_dropped_by_global_cap

  select_file-IsCounted :
      (n considered : ℕ) (stats : SearchCompressorStats) (file : Bytes) (fm : FileMatches F)
      (s : Selection F)
      → get file s.selected ≡ none
      → IsCounted considered stats n s
      → IsCounted (considered + length fm.matches) stats n (select_file r config n (file, fm) s)
  unfolding select_file
  select_file-IsCounted n considered stats file fm s new c =
      let cap = min config.max_matches_per_file (n - s.total_selected) in
      let few = (select_in_file_lem r config cap fm.matches).0 in
      elim (Bool-cases (leb n s.total_selected)) [
        | inl full ↦ rw (full) (record {
          counted = c.counted;
          within = c.within;
          balanced = omega (arith, c.balanced);
        })
        | inr room ↦ rw (room) (record {
          counted = omega (
            arith,
            match_count-insert file
                (record { file = file; matches = select_in_file r config cap fm.matches })
                s.selected new,
            c.counted,
          );
          within = omega (arith, few, c.within);
          balanced = omega (arith, few, c.balanced);
        })
      ]

  selected-select_file :
      (n : ℕ) (file : Bytes) (fm : FileMatches F) (s : Selection F)
      → (select_file r config n (file, fm) s).selected ≡ (
          if leb n s.total_selected
          then s.selected
          else insert file
              (record {
                file = file;
                matches =
                    select_in_file r config
                      (min config.max_matches_per_file (n - s.total_selected))
                      fm.matches;
              })
              s.selected)
  unfolding select_file
  selected-select_file n file fm s = ground arith

  select_file-fresh :
      (n : ℕ) (file k : Bytes) (fm : FileMatches F) (s : Selection F)
      → bytes_eq k file ≡ false
      → get k s.selected ≡ none
      → get k (select_file r config n (file, fm) s).selected ≡ none
  select_file-fresh n file k fm s other new =
      rw (selected-select_file n file fm s) (elim (Bool-cases (leb n s.total_selected)) [
        | inl full ↦ rw (full) new
        | inr room ↦ rw (room) (get-insert_ne file k _ s.selected other new)
      ])

  All-fresh :
      (n : ℕ) (file : Bytes) (fm : FileMatches F) (s : Selection F) (files : Files F)
      → get file files ≡ none
      → All (λ e. get e.0 s.selected ≡ none) files
      → All (λ e. get e.0 (select_file r config n (file, fm) s).selected ≡ none) files
  unfolding get
  All-fresh n file fm s [] absent h = tt
  All-fresh n file fm s ((k, v) ∷ files) absent (new, h) = (
    select_file-fresh n file k fm s (ground (arith, bytes_eq_sym k file)) new,
    All-fresh n file fm s files (ground arith) h,
  )

  select_files-IsCounted :
      (n considered : ℕ) (stats : SearchCompressorStats) (files : Files F) (s : Selection F)
      → Distinct files
      → All (λ e. get e.0 s.selected ≡ none) files
      → IsCounted considered stats n s
      → IsCounted (considered + match_count files) stats n (select_files r config n files s)
  unfolding select_files match_count
  select_files-IsCounted n considered stats [] s distinct fresh c =
      subst (λ m. IsCounted m stats n s) (omega arith) c
  select_files-IsCounted n considered stats ((file, fm) ∷ files) s (absent, distinct) (new, fresh)
        c =
      subst
        (λ m.
          IsCounted m stats n (select_files r config n files (select_file r config n (file, fm) s)))
        (omega arith)
        (select_files-IsCounted n (considered + length fm.matches) stats files
          (select_file r config n (file, fm) s) distinct (All-fresh n file fm s files absent fresh)
          (select_file-IsCounted n considered stats file fm s new c))

  -- What is selected of a file is what `select_in_file` picks of it, with room for no more than the
  -- cap on the matches of a file.
  abbrev pub Selects : Files F → Bytes × FileMatches F → Type 0
  Selects files (file, kept) =
      (fm : FileMatches F) × (cap : ℕ) × In (file, fm) files
      × (cap ≤ config.max_matches_per_file)
      × (kept ≡ record { file = file; matches = select_in_file r config cap fm.matches })

  select_file-Selects :
      (all : Files F) (n : ℕ) (file : Bytes) (fm : FileMatches F) (s : Selection F)
      → In (file, fm) all
      → get file s.selected ≡ none
      → All (Selects all) s.selected
      → All (Selects all) (select_file r config n (file, fm) s).selected
  select_file-Selects all n file fm s at new h =
      let cap = min config.max_matches_per_file (n - s.total_selected) in
      rw (selected-select_file n file fm s) (elim (Bool-cases (leb n s.total_selected)) [
        | inl full ↦ rw (full) h
        | inr room ↦ rw (room) (
            All-insert_new (Selects all) file
              (record { file = file; matches = select_in_file r config cap fm.matches }) s.selected
              new (fm, cap, at, omega arith, refl) h)
      ])

  select_files-Selects :
      (all : Files F) (n : ℕ) (files : Files F) (s : Selection F)
      → All (λ e. In e all) files
      → Distinct files
      → All (λ e. get e.0 s.selected ≡ none) files
      → All (Selects all) s.selected
      → All (Selects all) (select_files r config n files s).selected
  unfolding select_files
  select_files-Selects all n [] s at distinct fresh h = h
  select_files-Selects all n ((file, fm) ∷ files) s (here, at) (absent, distinct) (new, fresh) h =
      select_files-Selects all n files (select_file r config n (file, fm) s) at distinct
        (All-fresh n file fm s files absent fresh) (select_file-Selects all n file fm s here new h)

  best_files-Distinct : (files : Files F) → Distinct files → Distinct (best_files r config files)
  unfolding best_files
  best_files-Distinct files h =
      let sorted = Distinct-sort_by (better_file r) files h in
      elim (ltb config.max_files (length (sort_by (better_file r) files)))
        as (λ b. Distinct (
          if b
          then take config.max_files (sort_by (better_file r) files)
          else sort_by (better_file r) files)) [
            | true ↦ Distinct-take config.max_files _ sorted
            | false ↦ sorted
          ]

  best_files-In : (files : Files F) → All (λ e. In e files) (best_files r config files)
  unfolding best_files
  best_files-In files =
      let sorted = All-sort_by (better_file r) (λ e. In e files) files (All-In files) in
      elim (ltb config.max_files (length (sort_by (better_file r) files)))
        as (λ b.
          All (λ e. In e files)
            (if b
              then take config.max_files (sort_by (better_file r) files)
              else sort_by (better_file r) files)) [
                | true ↦ All-take (λ e. In e files) config.max_files _ sorted
                | false ↦ sorted
              ]

  start-IsCounted :
      (files : Files F) (stats : SearchCompressorStats) (n : ℕ)
      → IsCounted 0 stats n (start r config files stats)
  unfolding start match_count
  start-IsCounted files stats n = record {
    counted = refl;
    within = omega arith;
    balanced = omega arith;
  }

  All-start :
      (files : Files F) (stats : SearchCompressorStats) (some_files : Files F)
      → All (λ e. get e.0 (start r config files stats).selected ≡ none) some_files
  unfolding get start
  All-start files stats [] = tt
  All-start files stats (e ∷ some_files) = (refl, All-start files stats some_files)

  -- Of files with different names, no more matches are selected than `compute_optimal_k` allows. Every
  -- match of the best files is selected or counted as dropped, by the cap on a file or by the cap on
  -- the total. What is selected of a file is what `select_in_file` picks of it, with room for no more
  -- than the cap on a file.
  pub select_matches_lem :
      (files : Files F) (bias : D) (stats : SearchCompressorStats)
      → Distinct files
      → let out = select_matches r config files bias stats in
        (match_count out.0 ≤ adaptive_total r config files bias)
        × (match_count out.0
              + out.1.matches_dropped_by_per_file_cap
              + out.1.matches_dropped_by_global_cap
            ≡ match_count (best_files r config files)
              + stats.matches_dropped_by_per_file_cap
              + stats.matches_dropped_by_global_cap)
        × All (Selects files) out.0
  unfolding select_matches
  select_matches_lem files bias stats distinct =
      let n = adaptive_total r config files bias in
      let s = start r config files stats in
      let best = best_files r config files in
      let distinct' = best_files-Distinct files distinct in
      let c =
        select_files-IsCounted n 0 stats best s distinct' (All-start files stats best)
          (start-IsCounted files stats n) in
      (
        omega (arith, c.counted, c.within),
        omega (arith, c.counted, c.balanced),
        select_files-Selects files n best s (best_files-In files) distinct'
            (All-start files stats best) (unfold start in tt),
      )
