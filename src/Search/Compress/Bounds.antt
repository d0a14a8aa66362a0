-- ===== src/Search/Compress/Bounds.antt =====
-- search_compressor.rs: how many matches the output has.
use lm_resizer.Base.{
  ◌≤◌, max, ◌≡◌, ◌++◌, inl, inr, none, some, List, [], ◌∷◌, length, Bytes, is_empty, ◌⊎◌,
  Bool-cases, Option-cases,
}
use lm_resizer.Base.TreeMap.Order.{IsSorted, update-IsSorted}
use lm_resizer.Search.{
  Files, SearchCompressorConfig, SearchCompressorStats, SearchCompressionResult,
}
use lm_resizer.Search.Parse.{
  new_match, push_match, parse_match_line, add_line, parse_search_results,
}
use lm_resizer.Search.Compress.{Outside, marker}
use lm_resizer.Search.Compress.Printed.{all_matches, IsPrint}

module _ {F : Type 0} (zero : F) (trim : Bytes → Bytes) where
  add_line-IsSorted :
      (raw : Bytes) (out : Files F) (stats : SearchCompressorStats)
      → IsSorted out
      → IsSorted (add_line zero trim raw (out, stats)).0
  unfolding add_line
  add_line-IsSorted raw out stats h = elim (Bool-cases (is_empty (trim raw))) [
    | inl blank ↦ rw (blank) h
    | inr text ↦ rw (text) (elim (Option-cases (parse_match_line (trim raw))) [
      | inl other ↦ rw (other) h
      | inr ((file, n, body), found) ↦
          rw (found)
            (update-IsSorted file (push_match zero trim (new_match zero trim file n body)) out h)
    ])
  ]

  pub parse_search_results-IsSorted :
      (lines : List Bytes) (acc : Files F × SearchCompressorStats)
      → IsSorted acc.0
      → IsSorted (parse_search_results zero trim lines acc).0
  unfolding parse_search_results
  parse_search_results-IsSorted [] acc h = h
  parse_search_results-IsSorted (raw ∷ lines) acc h =
      parse_search_results-IsSorted lines (add_line zero trim raw acc)
        (add_line-IsSorted raw acc.0 acc.1 h)

module _ {F D S : Type 0} (o : Outside F D S) (config : SearchCompressorConfig) where
  -- The text is the body, or it has a key and is the body with the marker for it at its end.
  abbrev IsEnding : Bytes → SearchCompressionResult → Type 0
  IsEnding body r =
      ((r.cache_key ≡ none) × (r.compressed ≡ body))
      ⊎ ((key : Bytes) × (r.cache_key ≡ some key)
          × (r.compressed
              ≡ body ++ marker o config r.original_match_count r.compressed_match_count key))

  abbrev KeepsMatches : SearchCompressionResult → SearchCompressionResult → Type 0
  KeepsMatches r out =
      (out.compressed_match_count ≡ r.compressed_match_count) × IsEnding r.compressed out

  -- The body shows the matches of some files, as many as the result counts and no more than allowed.
  abbrev pub ShowsFew : SearchCompressionResult → Type 0
  ShowsFew r =
      (selected : Files F) × (body : Bytes) × IsPrint config.group_by_file selected body
      × IsEnding body r
      × (length (all_matches selected) ≡ r.compressed_match_count)
      × (r.compressed_match_count ≤ max 8 config.max_total_matches)
