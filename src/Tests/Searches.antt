-- ===== src/Tests/Searches.antt =====
-- Runs of the search compressor and of the adaptive sizer.
use lm_resizer.Base.{
  ℕ, ◌+◌, ◌-◌, ◌*◌, ◌/◌, ◌≤◌, min, max, ◌≡◌, refl, true, false, ◌&&◌, none, some, List, [], ◌∷◌,
  ◌++◌, map, length, All, In, Bytes, codes, contains, is_empty, is_ascii_whitespace, ltb, leb,
  if◌then◌else◌,
}
use lm_resizer.Base.Lines.{split_lines, join}
use lm_resizer.Base.Sort.{sort_by, insert_sorted}
use lm_resizer.Base.TreeMap.{get}
use lm_resizer.Base.Sort.Keys.{Ascending}
use lm_resizer.Sizer.{
  Floats, Texts, majority, votes_up, votes_down, differing, hamming_distance, windows,
  clusters_from, simhash, count_unique_simhash, compute_optimal_k,
}
use lm_resizer.Sizer.Clusters.{Apart, Covered, count_unique_simhash_lem}
use lm_resizer.Search.{SearchMatch, Files, SearchCompressorConfig, error}
use lm_resizer.Search.Parse.{
  marker_from, found, scan, is_drive, parse_match_line, parse_search_results,
}
use lm_resizer.Search.Parse.Reparse.{parse_match_line-row}
use lm_resizer.Search.Select.{
  Ranking, row, match_count, first, last, push_unique, keep, fill, pick_first, pick_last, pick,
  select_in_file, best_files, adaptive_total, select_matches,
}
use lm_resizer.Search.Select.Picks.{Keeps, KeepsKey}
use lm_resizer.Search.Select.Caps.{select_in_file_lem}
use lm_resizer.Search.Select.Drops.{Selects, select_matches_lem}
use lm_resizer.Search.Compress.{Outside, new_stats, is_lost_failure, compress_with_store}
use lm_resizer.Gate.{lines_of}

-- Numbers in thousandths.
abbrev pub floats : Floats ℕ
floats = record {
  of_nat = λ n. n * 1000;
  ratio = λ a b. a * 1000 / b;
  minus_one = 0;
  epsilon = 1;
  add = λ a b. a + b;
  sub = λ a b. a - b;
  mul = λ a b. a * b / 1000;
  div = λ a b. a * 1000 / b;
  abs = λ a. a;
  lt = ltb;
  trunc = λ a. a / 1000;
}

abbrev pub sum_bytes : Bytes → ℕ
sum_bytes [] = 0
sum_bytes (c ∷ s) = c + sum_bytes s

abbrev pub texts : Texts
texts = record {
  lower_words = λ s. s ∷ [];
  lower_chars = λ s. s;
  md5_u64 = sum_bytes;
  zlib_compressed_len = length;
}

abbrev ranking : Ranking ℕ ℕ
ranking = record {
  zero = 0;
  add = λ a b. a + b;
  greater = λ a b. ltb b a;
  hash_u64 = sum_bytes;
  floats = floats;
  texts = texts;
}

abbrev trim_start : Bytes → Bytes
trim_start [] = []
trim_start (c ∷ s) = let rest = trim_start s in if is_ascii_whitespace c then rest else c ∷ s

-- Blanks at the end go.
abbrev trim_end : Bytes → Bytes
trim_end [] = []
trim_end (c ∷ s) = if is_ascii_whitespace c && is_empty (trim_end s) then [] else c ∷ trim_end s

abbrev outside : Outside ℕ ℕ (List (Bytes × Bytes))
outside = record {
  ranking = ranking;
  trim = trim_end;
  split_whitespace = λ s. s ∷ [];
  failure_signal = contains (codes "panic");
  category = λ s. if contains (codes "error") s then some error else none;
  tenths = λ n. n;
  cap_at_one = min 10;
  ratio_too_high = λ a b. leb (b * 8) (a * 10);
  md5_hex_24 = λ s. codes "key";
  put = λ s k v. (k, v) ∷ s;
}

abbrev config : SearchCompressorConfig
config = record {
  max_matches_per_file = 2;
  always_keep_first = true;
  always_keep_last = true;
  max_total_matches = 30;
  max_files = 15;
  context_keywords = [];
  boost_errors = true;
  enable_ccr = true;
  min_matches_for_ccr = 10;
  group_by_file = false;
}

abbrev windows_line : Bytes
windows_line = codes "C:/src/pre-commit.rs:007:let x: u8 = 1;"

windows_run :
    parse_match_line windows_line ≡ some (codes "C:/src/pre-commit.rs", 7, codes "let x: u8 = 1;")
unfolding parse_match_line scan is_drive found marker_from
windows_run = refl

-- A date in a path is read as a line number.
dated_run :
    parse_match_line (codes "log-2024-01.txt:5:x") ≡ some (codes "log", 2024, codes "01.txt:5:x")
unfolding parse_match_line scan is_drive found marker_from
dated_run = refl

row_example :
    parse_match_line (row (codes "C:/src/pre-commit.rs") 7 (codes "let x: u8 = 1;"))
    ≡ some (codes "C:/src/pre-commit.rs", 7, codes "let x: u8 = 1;")
row_example =
    parse_match_line-row windows_line (codes "C:/src/pre-commit.rs") 7 (codes "let x: u8 = 1;")
      windows_run

abbrev match_at : ℕ → Bytes → ℕ → SearchMatch ℕ
match_at n content score = record {
  file = codes "a.rs";
  line_number = n;
  content = content;
  score = score;
}

abbrev four : List (SearchMatch ℕ)
four =
    match_at 1 (codes "one") 0
    ∷ match_at 2 (codes "two") 3
    ∷ match_at 3 (codes "three") 5
    ∷ match_at 4 (codes "four") 0
    ∷ []

four_run : map (λ m. m.line_number) (select_in_file ranking config 3 four) ≡ 1 ∷ 3 ∷ 4 ∷ []
unfolding select_in_file pick pick_first pick_last fill keep push_unique sort_by insert_sorted
four_run = refl

select_in_file_example :
    (length (select_in_file ranking config 3 four) ≤ min 3 4)
    × All (λ m. In m four) (select_in_file ranking config 3 four)
    × Ascending (λ m. m.line_number) (select_in_file ranking config 3 four)
    × Keeps ranking true (first four) (select_in_file ranking config 3 four)
    × KeepsKey ranking true (last four) (select_in_file ranking config 3 four)
select_in_file_example = select_in_file_lem ranking config 3 four

abbrev two_files : Files ℕ
two_files =
    (codes "a.rs", record { file = codes "a.rs"; matches = four })
    ∷ (codes "b.rs", record { file = codes "b.rs"; matches = match_at 9 (codes "nine") 1 ∷ [] })
    ∷ []

select_matches_example :
    let out = select_matches ranking config two_files 1000 new_stats in
    (match_count out.0 ≤ adaptive_total ranking config two_files 1000)
    × (match_count out.0
          + out.1.matches_dropped_by_per_file_cap
          + out.1.matches_dropped_by_global_cap
        ≡ match_count (best_files ranking config two_files)
          + new_stats.matches_dropped_by_per_file_cap
          + new_stats.matches_dropped_by_global_cap)
    × All (Selects ranking config two_files) out.0
select_matches_example =
    select_matches_lem ranking config two_files 1000 new_stats (unfold get in (refl, (refl, tt)))

abbrev transcript : Bytes
transcript =
    codes "a.rs:1:fn main() {" ++ (10 ∷ codes "thread panicked" ++ (13 ∷ 10 ∷ codes "a.rs:2:}"))

abbrev listing : Bytes
listing =
    join (10 ∷ [])
      (codes "a.rs:1:one" ∷ codes "a.rs:2:two" ∷ codes "a.rs:3:three" ∷ codes "b.rs:4:four" ∷ [])

listing_run :
    (compress_with_store outside config listing [] 1000 none).0.compressed
    ≡ join (10 ∷ []) (
        codes "a.rs:1:one"
        ∷ codes "a.rs:3:three"
        ∷ codes "[... and 1 more matches in a.rs]"
        ∷ codes "b.rs:4:four"
        ∷ [])
unfolding compress_with_store join parse_search_results split_lines lm_resizer.Search.Parse.add_line
    parse_match_line is_drive scan marker_from found new_stats lm_resizer.Base.TreeMap.update
    lm_resizer.Search.Compress.emit_key lm_resizer.Search.Compress.compress_files match_count
    lm_resizer.Search.Compress.format_output lm_resizer.Search.Compress.add_files select_matches
    lm_resizer.Search.Select.select_files lm_resizer.Base.Decimal.decimal
    lm_resizer.Base.Decimal.decimal_fuel insert_sorted sort_by get lm_resizer.Base.TreeMap.insert
    lines_of lm_resizer.Search.Compress.add_file is_lost_failure
    lm_resizer.Search.Compress.match_rows lm_resizer.Search.Compress.omitted_in
    lm_resizer.Search.Compress.score_match lm_resizer.Search.Compress.score_matches
    lm_resizer.Search.Compress.summary_line adaptive_total best_files fill keep pick pick_first
    pick_last push_unique row lm_resizer.Search.Select.select_file select_in_file
    lm_resizer.Search.Select.start compute_optimal_k
listing_run = refl

abbrev nine : List Bytes
nine = map (λ n. n ∷ n ∷ []) (1 ∷ 2 ∷ 3 ∷ 4 ∷ 5 ∷ 6 ∷ 7 ∷ 8 ∷ 9 ∷ [])

simhash_example :
    (reps : List ℕ) × (length reps ≡ count_unique_simhash texts nine 3)
    × ((r : ℕ) → In r reps → In r (map (simhash texts) nine))
    × Apart 3 reps
    × All (Covered 3 reps) (map (simhash texts) nine)
simhash_example = count_unique_simhash_lem texts nine 3

simhash_run : count_unique_simhash texts nine 3 ≡ 1
unfolding count_unique_simhash clusters_from hamming_distance differing simhash majority votes_up
    votes_down windows
simhash_run = refl
