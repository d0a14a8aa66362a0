-- ===== src/Search/Select/Caps.antt =====
-- search_compressor.rs: the matches of one file that `select_matches` keeps.
use lm_resizer.Base.{
  ℕ, ◌≤◌, min, true, false, ◌&&◌, List, [], ◌∷◌, length, All, All-In, In, ltb, if◌then◌else◌, arith,
}
use lm_resizer.Base.Sort.{sort_by, length-sort_by}
use lm_resizer.Base.Sort.Members.{sort_by-In, All-sort_by}
use lm_resizer.Base.Sort.Keys.{lower_key, Ascending, sort_by-Ascending}
use lm_resizer.Base.Pigeonhole.{length-Unique-le}
use lm_resizer.Search.{SearchMatch, SearchCompressorConfig}
use lm_resizer.Search.Select.{
  Ranking, first, last, same_key, push_unique, keep, pick_first, pick_last, pick, better_match,
  select_in_file,
}
use lm_resizer.Search.Select.Picks.{
  IsPicked, keep-IsPicked, fill-IsPicked, first-In, last-In, keep-In, fill-In, Keeps, KeepsKey,
  Keeps-more, KeepsKey-more, Keeps-if, KeepsKey-if, same_key_self,
}

module _ {F D : Type 0} (r : Ranking F D) (config : SearchCompressorConfig) where
  pick_first-IsPicked :
      (n : ℕ) (ms : List (SearchMatch F)) → IsPicked r n ms (pick_first r config n ms)
  unfolding pick_first
  pick_first-IsPicked n ms =
      let nothing : IsPicked r n ms [] = record { few = omega arith; unique = tt; from = tt } in
      elim config.always_keep_first
        as (λ b. IsPicked r n ms (if b then keep r n (first ms) [] else [])) [
          | true ↦ keep-IsPicked r n ms [] (first ms) (first-In r ms) nothing
          | false ↦ nothing
        ]

  length-pick_first-le : (n : ℕ) (ms : List (SearchMatch F)) → length (pick_first r config n ms) ≤ 1
  unfolding pick_first keep push_unique
  length-pick_first-le n [] = ground arith
  length-pick_first-le n (m ∷ ms) = ground arith

  pick_last-IsPicked :
      (n : ℕ) (ms : List (SearchMatch F)) → IsPicked r n ms (pick_last r config n ms)
  unfolding pick_last
  pick_last-IsPicked n ms =
      elim (config.always_keep_last && ltb 1 (length ms))
        as (λ b.
          IsPicked r n ms (
            if b
            then keep r n (last ms) (pick_first r config n ms)
            else pick_first r config n ms)) [
              | true ↦
                  keep-IsPicked r n ms (pick_first r config n ms) (last ms) (last-In r ms)
                    (pick_first-IsPicked n ms)
              | false ↦ pick_first-IsPicked n ms
            ]

  pick-IsPicked : (n : ℕ) (ms : List (SearchMatch F)) → IsPicked r n ms (pick r config n ms)
  unfolding pick
  pick-IsPicked n ms =
      fill-IsPicked r n ms (sort_by (better_match r) ms) (pick_last r config n ms)
        (All-sort_by (better_match r) (λ m. In m ms) ms (All-In ms)) (pick_last-IsPicked n ms)

  pick_last-In :
      (n : ℕ) (ms : List (SearchMatch F)) (x : SearchMatch F)
      → In x (pick_first r config n ms)
      → In x (pick_last r config n ms)
  unfolding pick_last
  pick_last-In n ms x h =
      elim (config.always_keep_last && ltb 1 (length ms))
        as (λ b.
          In x (
            if b
            then keep r n (last ms) (pick_first r config n ms)
            else pick_first r config n ms)) [
              | true ↦ keep-In r n (last ms) x (pick_first r config n ms) h
              | false ↦ h
            ]

  select_in_file-In :
      (n : ℕ) (ms : List (SearchMatch F)) (x : SearchMatch F)
      → In x (pick_last r config n ms)
      → In x (select_in_file r config n ms)
  unfolding select_in_file pick
  select_in_file-In n ms x h =
      sort_by-In _ x _ (fill-In r n x (sort_by (better_match r) ms) (pick_last r config n ms) h)

  pick_first-Keeps :
      (n : ℕ) (ms : List (SearchMatch F))
      → Keeps r (config.always_keep_first && ltb 0 n) (first ms) (pick_first r config n ms)
  unfolding pick_first
  pick_first-Keeps n ms = Keeps-if r config.always_keep_first n (first ms)

  pick_last-KeepsKey :
      (n : ℕ) (ms : List (SearchMatch F))
      → KeepsKey r
          (config.always_keep_last && ltb 1 (length ms) && ltb 1 n)
          (last ms)
          (pick_last r config n ms)
  unfolding pick_last
  pick_last-KeepsKey n ms =
      KeepsKey-if r (config.always_keep_last && ltb 1 (length ms)) n (last ms)
        (pick_first r config n ms) (length-pick_first-le n ms)

  -- Of one file, with room for `n` matches, no more than `n` are kept and no more than there are; all
  -- are matches of the file, in the order of their line numbers. The first match is kept where the
  -- configuration asks for it and there is room for one; the last one, or another with its line
  -- number and the hash of its content, where the configuration asks for it, the file has two
  -- matches at least and there is room for two.
  pub select_in_file_lem :
      (n : ℕ) (ms : List (SearchMatch F))
      → (length (select_in_file r config n ms) ≤ min n (length ms))
        × All (λ m. In m ms) (select_in_file r config n ms)
        × Ascending (λ m. m.line_number) (select_in_file r config n ms)
        × Keeps r (config.always_keep_first && ltb 0 n) (first ms) (select_in_file r config n ms)
        × KeepsKey r
            (config.always_keep_last && ltb 1 (length ms) && ltb 1 n)
            (last ms)
            (select_in_file r config n ms)
  select_in_file_lem n ms =
      let p = pick-IsPicked n ms in
      (
        unfold select_in_file in
            omega (
              arith,
              length-sort_by (lower_key (λ m. m.line_number)) (pick r config n ms),
              p.few,
              length-Unique-le (same_key r) (same_key_self r) (pick r config n ms) ms p.unique
                  p.from,
            ),
        unfold select_in_file in
            All-sort_by (lower_key (λ m. m.line_number)) (λ m. In m ms) (pick r config n ms) p.from,
        unfold select_in_file in sort_by-Ascending (λ m. m.line_number) (pick r config n ms),
        Keeps-more r _ (first ms) (pick_first r config n ms) _
            (λ x h. select_in_file-In n ms x (pick_last-In n ms x h)) (pick_first-Keeps n ms),
        KeepsKey-more r _ (last ms) (pick_last r config n ms) _ (select_in_file-In n ms)
            (pick_last-KeepsKey n ms),
      )
