-- ===== src/Search/Compress.antt =====
-- search_compressor.rs: scores, the output, and `compress_with_store`. `S` is the store.
pub mod Failures
pub mod Printed
pub mod Bounds
use lm_resizer.Base.{
  ℕ, ◌+◌, ◌-◌, Bool, true, false, ◌&&◌, ◌||◌, not, Option, none, some, List, [], ◌∷◌, ◌++◌, map,
  filter, length, any, Bytes, codes, contains, to_ascii_lowercase, is_empty, leb, ltb, ◌==◌,
  if◌then◌else◌, is_some,
}
use lm_resizer.Base.Decimal.{decimal}
use lm_resizer.Base.TreeMap.{get, insert, values, TreeMap}
use lm_resizer.Gate.{lines_of}
use lm_resizer.Base.Lines.{split_lines, join}
use lm_resizer.Search.{
  SearchMatch, FileMatches, Files, SearchCompressorConfig, SearchCompressionResult,
  SearchCompressorStats, SkipReason, below_min_matches, ratio_too_high, no_store, ccr_disabled,
  ImportanceCategory, error, warning, importance, security, markdown,
}
use lm_resizer.Search.Parse.{parse_match_line, parse_search_results}
use lm_resizer.Search.Select.{Ranking, row, match_count, select_matches}

pub record Outside (F D S : Type 0) : Type 0 where
  pub ranking : Ranking F D
  -- `str::trim` and `split_whitespace`, of Unicode whitespace.
  pub trim : Bytes → Bytes
  pub split_whitespace : Bytes → List Bytes
  -- The regular expression FAILURE_SIGNAL of the gate.
  pub failure_signal : Bytes → Bool
  -- What the importance detector says of a line.
  pub category : Bytes → Option ImportanceCategory
  -- The steps of a score in tenths, and the cut at 1.
  pub tenths : ℕ → F
  pub cap_at_one : F → F
  -- The ratio of two lengths is no better than the configuration asks.
  pub ratio_too_high : ℕ → ℕ → Bool
  pub md5_hex_24 : Bytes → Bytes
  pub put : S → Bytes → Bytes → S

unfoldable pub new_stats : SearchCompressorStats
new_stats = record {
  lines_scanned = 0;
  lines_unparsed = 0;
  files_dropped = 0;
  matches_dropped_by_per_file_cap = 0;
  matches_dropped_by_global_cap = 0;
  ccr_emitted = false;
  ccr_skip_reason = none;
}

unfoldable pub summary_line : Bool → ℕ → Bytes → Bytes
summary_line grouped omitted file =
    codes "[... and "
    ++ (decimal omitted
        ++ (codes " more matches" ++ (if grouped then [] else codes " in " ++ file) ++ codes "]"))

module _ {F : Type 0} where
  -- How many matches of a file are not selected, where there are such.
  unfoldable pub omitted_in : Files F → Bytes → List (SearchMatch F) → Option ℕ
  omitted_in original file matches = elim (get file original) [
    | none ↦ none
    | some orig_fm ↦
        if ltb (length matches) (length orig_fm.matches)
        then some (length orig_fm.matches - length matches)
        else none
  ]

  -- The rows of a file; `blank` says that there are lines above them.
  unfoldable pub match_rows : Bool → Bool → Bytes → List (SearchMatch F) → List Bytes
  match_rows grouped blank file matches =
      if grouped
      then (if blank then [] ∷ [] else [])
        ++ (file ∷ map (λ m. decimal m.line_number ++ (b':' ∷ m.content)) matches)
      else map (λ m. row m.file m.line_number m.content) matches

  unfoldable pub add_file :
      Bool
      → Files F
      → Bytes × FileMatches F
      → List Bytes × TreeMap Bytes
      → List Bytes × TreeMap Bytes
  add_file grouped original (file, fm) (lines, summaries) =
      let with_rows = lines ++ match_rows grouped (ltb 0 (length lines)) file fm.matches in
      elim (omitted_in original file fm.matches) [
        | none ↦ (with_rows, summaries)
        | some omitted ↦
            let summary = summary_line grouped omitted file in
            (with_rows ++ (summary ∷ []), insert file summary summaries)
      ]

  unfoldable pub add_files :
      Bool → Files F → Files F → List Bytes × TreeMap Bytes → List Bytes × TreeMap Bytes
  add_files grouped original [] out = out
  add_files grouped original (e ∷ files) out =
      add_files grouped original files (add_file grouped original e out)

  unfoldable pub format_output : Bool → Files F → Files F → Bytes × TreeMap Bytes
  format_output grouped selected original =
      let (lines, summaries) = add_files grouped original selected ([], []) in
      (join (10 ∷ []) lines, summaries)

module _ {F D S : Type 0} (o : Outside F D S) (config : SearchCompressorConfig) where
  abbrev pub category_tenths : Option ImportanceCategory → ℕ
  category_tenths none = 0
  category_tenths (some error) = 5
  category_tenths (some warning) = 4
  category_tenths (some importance) = 3
  category_tenths (some security) = 0
  category_tenths (some markdown) = 0

  -- A bonus for each word that the text holds.
  abbrev pub add_words : ℕ → Bytes → List Bytes → F → F
  add_words bonus content_lower [] score = score
  add_words bonus content_lower (w ∷ words) score =
      add_words bonus content_lower words
        (if contains w content_lower then o.ranking.add score (o.tenths bonus) else score)

  abbrev pub context_words : Bytes → List Bytes
  context_words context =
      filter (λ w. ltb 2 (length w)) (o.split_whitespace (to_ascii_lowercase context))

  abbrev pub boost : Option ImportanceCategory → F → F
  boost none score = score
  boost (some c) score = o.ranking.add score (o.tenths (category_tenths (some c)))

  unfoldable pub score_match : List Bytes → SearchMatch F → SearchMatch F
  score_match words m =
      let content_lower = to_ascii_lowercase m.content in
      let by_words = add_words 3 content_lower words o.ranking.zero in
      let by_category =
        if config.boost_errors then boost (o.category m.content) by_words else by_words in
      record m {
        score = o.cap_at_one (
            add_words 4 content_lower (map to_ascii_lowercase config.context_keywords) by_category);
      }

  unfoldable pub score_matches : Files F → Bytes → Files F
  score_matches files context =
      map
        (λ e. (e.0, record e.1 { matches = map (score_match (context_words context)) e.1.matches }))
        files

  -- A line that does not parse, though it is not blank, and that reports a failure.
  unfoldable pub is_lost_failure : Bytes → Bool
  is_lost_failure line =
      not (is_empty (o.trim line))
      && (not (is_some (parse_match_line (o.trim line))) && o.failure_signal line)

  abbrev pub unchanged : Bytes → ℕ → ℕ → SearchCompressionResult
  unchanged content matches files = record {
    compressed = content;
    original = content;
    original_match_count = matches;
    compressed_match_count = matches;
    files_affected = files;
    cache_key = none;
    summaries = [];
  }

  unfoldable pub marker : ℕ → ℕ → Bytes → Bytes
  marker original_count compressed_count key =
      10 ∷ codes "["
      ++ (decimal original_count
          ++ (codes " matches compressed to "
              ++ (decimal compressed_count
                  ++ (codes ". Retrieve more: hash=" ++ (key ++ codes "]")))))

  -- The last part, the store: a key and a marker, or the reason why there is none.
  unfoldable pub emit_key :
      SearchCompressionResult
      → SearchCompressorStats
      → Option S
      → SearchCompressionResult × SearchCompressorStats × Option S
  emit_key r stats store =
      let key = o.md5_hex_24 r.original in
      let skip : SkipReason → SearchCompressionResult × SearchCompressorStats × Option S =
        λ why. (r, record stats { ccr_skip_reason = some why }, store) in
      if not config.enable_ccr
      then skip ccr_disabled
      else if ltb r.original_match_count config.min_matches_for_ccr
      then skip below_min_matches
      else if o.ratio_too_high (length r.compressed) (length r.original)
      then skip ratio_too_high
      else elim store [
        | none ↦ skip no_store
        | some s ↦ (
          record r {
            compressed = r.compressed ++ marker r.original_match_count r.compressed_match_count key;
            cache_key = some key;
          },
          record stats { ccr_emitted = true },
          some (o.put s key r.original),
        )
      ]

  -- From the scores on.
  unfoldable pub compress_files :
      Bytes
      → Bytes
      → D
      → Files F
      → SearchCompressorStats
      → SearchCompressionResult × SearchCompressorStats
  compress_files content context bias parsed stats =
      let scored = score_matches parsed context in
      let (selected, stats') = select_matches o.ranking config scored bias stats in
      let (body, summaries) = format_output config.group_by_file selected scored in
      (
        record {
          compressed = body;
          original = content;
          original_match_count = match_count parsed;
          compressed_match_count = match_count selected;
          files_affected = length scored;
          cache_key = none;
          summaries = summaries;
        },
        stats',
      )

  unfoldable pub compress_with_store :
      Bytes → Bytes → D → Option S → SearchCompressionResult × SearchCompressorStats × Option S
  compress_with_store content context bias store =
      let (parsed, stats) =
        parse_search_results o.ranking.zero o.trim (split_lines content) ([], new_stats) in
      let compressed = compress_files content context bias parsed stats in
      if ltb 0 stats.lines_unparsed && any is_lost_failure (lines_of content)
      then (unchanged content (match_count parsed) (length parsed), stats, store)
      else if leb (length parsed) 0
      then (unchanged content 0 0, stats, store)
      else emit_key compressed.0 compressed.1 store
