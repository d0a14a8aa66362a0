-- ===== src/Search/Select.antt =====
-- search_compressor.rs: `select_matches`. The set `seen` of the code holds the keys of the matches
-- that a file has in its selection, and is read off that selection here.
pub mod Picks
pub mod Caps
pub mod Drops
use lm_resizer.Base.{
  ℕ, ◌+◌, ◌-◌, min, Bool, true, false, ◌&&◌, ◌||◌, not, Option, none, some, List, [], ◌∷◌, ◌++◌,
  map, length, take, any, Bytes, leb, ltb, ◌==◌, if◌then◌else◌,
}
use lm_resizer.Base.Decimal.{decimal}
use lm_resizer.Base.Sort.{sort_by}
use lm_resizer.Base.Sort.Keys.{lower_key}
use lm_resizer.Base.TreeMap.{insert}
use lm_resizer.Sizer.{Floats, Texts, compute_optimal_k}
use lm_resizer.Search.{
  SearchMatch, FileMatches, Files, SearchCompressorConfig, SearchCompressorStats,
}

-- What the code uses of the `f32` scores, `hash_u64`, and the parts of `compute_optimal_k`.
pub record Ranking (F D : Type 0) : Type 0 where
  pub zero : F
  pub add : F → F → F
  -- `a.partial_cmp(b)` is `Greater`.
  pub greater : F → F → Bool
  pub hash_u64 : Bytes → ℕ
  pub floats : Floats D
  pub texts : Texts

-- `format!("{}:{}:{}", file, line_number, content)`.
unfoldable pub row : Bytes → ℕ → Bytes → Bytes
row file line_number content = file ++ (b':' ∷ (decimal line_number ++ (b':' ∷ content)))

abbrev pub first : {A : Type 0} → List A → Option A
first [] = none
first (x ∷ xs) = some x

abbrev pub last : {A : Type 0} → List A → Option A
last [] = none
last (x ∷ []) = some x
last (x ∷ y ∷ xs) = last (y ∷ xs)

abbrev pub file_rows : {F : Type 0} → Bytes × FileMatches F → List Bytes
file_rows (file, fm) = map (λ m. row file m.line_number m.content) fm.matches

abbrev pub all_rows : {F : Type 0} → Files F → List Bytes
all_rows [] = []
all_rows (e ∷ files) = file_rows e ++ all_rows files

-- `values().map(|fm| fm.matches.len()).sum()`.
unfoldable pub match_count : {F : Type 0} → Files F → ℕ
match_count [] = 0
match_count ((file, fm) ∷ files) = length fm.matches + match_count files

-- The variables of the loop over the files.
pub record Selection (F : Type 0) : Type 0 where
  pub selected : Files F
  pub total_selected : ℕ
  pub stats : SearchCompressorStats

module _ {F D : Type 0} (r : Ranking F D) where
  abbrev pub sum_from : F → List (SearchMatch F) → F
  sum_from sum [] = sum
  sum_from sum (m ∷ ms) = sum_from (r.add sum m.score) ms

  abbrev pub total_score : List (SearchMatch F) → F
  total_score matches = sum_from r.zero matches

  abbrev pub better_file : Bytes × FileMatches F → Bytes × FileMatches F → Bool
  better_file a b = r.greater (total_score a.1.matches) (total_score b.1.matches)

  -- By score, the best first, and then by line.
  abbrev pub better_match : SearchMatch F → SearchMatch F → Bool
  better_match a b =
      r.greater a.score b.score
      || (not (r.greater b.score a.score) && ltb a.line_number b.line_number)

  abbrev pub same_key : SearchMatch F → SearchMatch F → Bool
  same_key a b = a.line_number == b.line_number && r.hash_u64 a.content == r.hash_u64 b.content

  unfoldable pub push_unique : SearchMatch F → List (SearchMatch F) → List (SearchMatch F)
  push_unique m file_selected =
      if any (same_key m) file_selected then file_selected else file_selected ++ (m ∷ [])

  -- Where there is a match to keep and room for it.
  unfoldable pub keep : ℕ → Option (SearchMatch F) → List (SearchMatch F) → List (SearchMatch F)
  keep remaining_cap none file_selected = file_selected
  keep remaining_cap (some m) file_selected =
      if ltb (length file_selected) remaining_cap
      then push_unique m file_selected
      else file_selected

  unfoldable pub fill : ℕ → List (SearchMatch F) → List (SearchMatch F) → List (SearchMatch F)
  fill remaining_cap [] file_selected = file_selected
  fill remaining_cap (m ∷ ms) file_selected =
      let more = fill remaining_cap ms (push_unique m file_selected) in
      if leb remaining_cap (length file_selected) then file_selected else more

module _ {F D : Type 0} (r : Ranking F D) (config : SearchCompressorConfig) where
  unfoldable pub pick_first : ℕ → List (SearchMatch F) → List (SearchMatch F)
  pick_first remaining_cap matches =
      if config.always_keep_first then keep r remaining_cap (first matches) [] else []

  unfoldable pub pick_last : ℕ → List (SearchMatch F) → List (SearchMatch F)
  pick_last remaining_cap matches =
      if config.always_keep_last && ltb 1 (length matches)
      then keep r remaining_cap (last matches) (pick_first remaining_cap matches)
      else pick_first remaining_cap matches

  -- The matches of one file, before they are put back in the order of their lines.
  unfoldable pub pick : ℕ → List (SearchMatch F) → List (SearchMatch F)
  pick remaining_cap matches =
      fill r remaining_cap (sort_by (better_match r) matches) (pick_last remaining_cap matches)

  unfoldable pub select_in_file : ℕ → List (SearchMatch F) → List (SearchMatch F)
  select_in_file remaining_cap matches =
      sort_by (lower_key (λ m. m.line_number)) (pick remaining_cap matches)

  unfoldable pub select_file : ℕ → Bytes × FileMatches F → Selection F → Selection F
  select_file adaptive_total (file, fm) s =
      let kept =
        select_in_file (min config.max_matches_per_file (adaptive_total - s.total_selected))
          fm.matches in
      if leb adaptive_total s.total_selected
      then record s {
        stats = record s.stats {
          matches_dropped_by_global_cap = s.stats.matches_dropped_by_global_cap + length fm.matches;
        };
      }
      else record {
        selected = insert file (record { file = file; matches = kept }) s.selected;
        total_selected = s.total_selected + length kept;
        stats = record s.stats {
          matches_dropped_by_per_file_cap =
              s.stats.matches_dropped_by_per_file_cap + (length fm.matches - length kept);
        };
      }

  unfoldable pub select_files : ℕ → Files F → Selection F → Selection F
  select_files adaptive_total [] s = s
  select_files adaptive_total (e ∷ files) s =
      select_files adaptive_total files (select_file adaptive_total e s)

  -- The best files, as many as are allowed.
  unfoldable pub best_files : Files F → Files F
  best_files files =
      let by_score = sort_by (better_file r) files in
      if ltb config.max_files (length by_score) then take config.max_files by_score else by_score

  unfoldable pub adaptive_total : Files F → D → ℕ
  adaptive_total files bias =
      compute_optimal_k r.floats r.texts (all_rows (best_files files)) bias 5
        (some config.max_total_matches)

  -- Nothing is selected yet, and the files beyond the cap are counted.
  unfoldable pub start : Files F → SearchCompressorStats → Selection F
  start files stats = record {
    selected = [];
    total_selected = 0;
    stats = record stats {
      files_dropped =
          stats.files_dropped
          + (if ltb config.max_files (length files) then length files - config.max_files else 0);
    };
  }

  unfoldable pub select_matches :
      Files F → D → SearchCompressorStats → Files F × SearchCompressorStats
  select_matches files bias stats =
      let s = select_files (adaptive_total files bias) (best_files files) (start files stats) in
      (s.selected, s.stats)
