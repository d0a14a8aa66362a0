-- ===== src/Tests/Diffs.antt =====
-- A small diff for crates/lm-resizer-core/src/transforms/diff_compressor.rs, with toy scores and keys.
use lm_resizer.Base.Sort.{insert_sorted, sort_by}
use lm_resizer.Diff.Context.{
  is_change, change_positions, keep_lines, count, reduce_context, reduce_context_lem,
}
use lm_resizer.Diff.Select.{
  split_last, select_around, select_capped, select_hunks, select_hunks-Perm,
}
use lm_resizer.Diff.Parse.{
  push_hunk, flush, mark_file, add_line, add_content, file_line, parse_line, parse_lines,
  parse_diff,
}
use lm_resizer.Base.Lines.{split_lines, join}
use lm_resizer.Diff.Compress.{
  Outside, sum, total_additions, total_deletions, total_hunks, pass_through_result, kept_files,
  compress_with_store,
}
use mathlib.Core.List.{Perm}
use lm_resizer.Base.{
  ℕ, ◌+◌, ◌*◌, ◌≤◌, ◌<◌, min, ◌≡◌, refl, ◌⊎◌, true, false, none, some, List, [], ◌∷◌, ◌++◌, map,
  filter, take, length, Bytes, codes, ltb, leb, ◌==◌, ◌&&◌, if◌then◌else◌,
}
use lm_resizer.Diff.{DiffHunk, ParsedDiff, DiffCompressorConfig}
use lm_resizer.Diff.Patterns.{
  is_digit, is_diff_header, is_old_file, is_new_file, is_binary_line, is_hunk_header,
  extract_line_number,
}
use lm_resizer.Diff.Parse.Headers.{parse_diff-headers, before_header}
use lm_resizer.Diff.Compress.Totals.{compress_with_store_lem, passes_through, header_count}
use lm_resizer.Diff.Compress.Keys.{compress_with_store-keys}

abbrev Store : Type 0
Store = List (Bytes × Bytes)

-- The ASCII digits, and the Arabic ones, of two bytes each.
abbrev toy_width : Bytes → ℕ
toy_width [] = 0
toy_width (c ∷ []) = if is_digit c then 1 else 0
toy_width (c ∷ d ∷ s) =
    if is_digit c then 1 else if c == 217 && (leb 160 d && leb d 169) then 2 else 0

abbrev toy : Outside ℕ Store
toy = record {
  digit_width = toy_width;
  zero = 0;
  greater = λ a b. ltb b a;
  score = λ context h. h.additions + h.deletions;
  meets_ratio = λ c o. ltb (c * 10) (o * 8);
  md5_hex_24 = λ content. take 4 content;
  put = λ s k v. (k, v) ∷ s;
}

abbrev settings : DiffCompressorConfig
settings = record {
  max_context_lines = 0;
  max_hunks_per_file = 2;
  max_files = 1;
  enable_ccr = true;
  min_lines_for_ccr = 3;
}

abbrev diff_lines : List Bytes
diff_lines =
    codes "commit 1"
    ∷ codes "diff --git a/x b/x"
    ∷ codes "--- a/x"
    ∷ codes "+++ b/x"
    ∷ codes "@@ -1,3 +1,3 @@"
    ∷ codes " one"
    ∷ codes "-two"
    ∷ codes "+2"
    ∷ codes " three"
    ∷ codes "@@ -9 +9 @@"
    ∷ codes " nine"
    ∷ []

abbrev parsed : ParsedDiff ℕ
parsed = parse_diff toy_width 0 diff_lines

abbrev diff : Bytes
diff = join (10 ∷ []) diff_lines

parsed_hunks :
    (map (λ f. total_additions f) parsed.files ≡ 1 ∷ [])
    × (map (λ f. total_deletions f) parsed.files ≡ 1 ∷ [])
    × (map (λ f. length f.hunks) parsed.files ≡ 2 ∷ [])
    × (parsed.pre_diff_lines ≡ codes "commit 1" ∷ [])
unfolding total_additions total_deletions parse_diff flush parse_lines parse_line file_line
    mark_file add_content add_line push_hunk is_diff_header is_old_file is_new_file is_binary_line
    is_hunk_header
parsed_hunks = (refl, refl, refl, refl)

line_of_header : extract_line_number toy_width (codes "@@ -1,3 +17,3 @@ fn") ≡ 17
unfolding extract_line_number
line_of_header = refl

-- Digits that are not ASCII make a header, but no number.
arabic_header : is_hunk_header toy_width (codes "@@ -1 +" ++ (217 ∷ 161 ∷ codes " @@")) ≡ true
unfolding is_hunk_header
arabic_header = refl

arabic_line : extract_line_number toy_width (codes "+" ++ (217 ∷ 161 ∷ codes "2")) ≡ 0
unfolding extract_line_number
arabic_line = refl

parse_diff_example :
    (map (λ f. f.header) parsed.files ≡ filter is_diff_header diff_lines)
    × (parsed.pre_diff_lines ≡ before_header diff_lines)
parse_diff_example = parse_diff-headers toy_width 0 diff_lines

abbrev hunk_at : Bytes → ℕ → DiffHunk ℕ
hunk_at header score = record {
  header = header;
  lines = codes " a" ∷ codes "-b" ∷ codes " c" ∷ codes "+d" ∷ codes " e" ∷ [];
  additions = 1;
  deletions = 1;
  context_lines = 3;
  score = score;
}

abbrev four_hunks : List (DiffHunk ℕ)
four_hunks =
    hunk_at (codes "@@ -1 +1 @@") 0
    ∷ hunk_at (codes "@@ -20 +20 @@") 5
    ∷ hunk_at (codes "@@ -40 +40 @@") 9
    ∷ hunk_at (codes "@@ -60 +60 @@") 1
    ∷ []

-- The first, the last, and the one of the two others with the higher score, by their line numbers.
three_kept :
    map
      (λ h. extract_line_number toy_width h.header)
      (select_hunks toy_width (λ a b. ltb b a) four_hunks 3).0
    ≡ 1 ∷ 40 ∷ 60 ∷ []
unfolding select_hunks select_capped split_last select_around sort_by insert_sorted
    extract_line_number
three_kept = refl

select_hunks_example :
    Perm
      ((select_hunks toy_width (λ a b. ltb b a) four_hunks 3).0
        ++ (select_hunks toy_width (λ a b. ltb b a) four_hunks 3).1)
      four_hunks
    × (length (select_hunks toy_width (λ a b. ltb b a) four_hunks 3).0 ≤ 3)
    × ((3 < 4) ⊎ ((select_hunks toy_width (λ a b. ltb b a) four_hunks 3).0 ≡ four_hunks))
select_hunks_example = select_hunks-Perm toy_width (λ a b. ltb b a) four_hunks 3

trimmed : (reduce_context (hunk_at [] 0) 0).lines ≡ codes "-b" ∷ codes "+d" ∷ []
unfolding reduce_context change_positions keep_lines
trimmed = refl

reduce_context_example :
    (filter is_change (reduce_context (hunk_at [] 0) 1).lines ≡ codes "-b" ∷ codes "+d" ∷ [])
    × (length (reduce_context (hunk_at [] 0) 1).lines ≤ 5)
    × ((reduce_context (hunk_at [] 0) 1).additions
          + (reduce_context (hunk_at [] 0) 1).deletions
          + (reduce_context (hunk_at [] 0) 1).context_lines
        ≡ length (reduce_context (hunk_at [] 0) 1).lines)
    × ((reduce_context (hunk_at [] 0) 1).additions ≡ 1)
    × ((reduce_context (hunk_at [] 0) 1).deletions ≡ 1)
unfolding count
reduce_context_example = reduce_context_lem (hunk_at [] 0) 1

compress_example :
    (passes_through toy settings diff ≡ true)
      × (compress_with_store toy settings diff [] (some [])
          ≡ (pass_through_result diff (length (split_lines diff)), some []))
    ⊎ (passes_through toy settings diff ≡ false)
      × ((compress_with_store toy settings diff [] (some [])).0.files_affected
          ≡ min 1 (header_count diff))
      × ((compress_with_store toy settings diff [] (some [])).0.hunks_kept
            + (compress_with_store toy settings diff [] (some [])).0.hunks_removed
          ≡ total_hunks (kept_files toy settings diff []))
      × ((compress_with_store toy settings diff [] (some [])).0.additions
          ≡ sum (map total_additions (kept_files toy settings diff [])))
      × ((compress_with_store toy settings diff [] (some [])).0.deletions
          ≡ sum (map total_deletions (kept_files toy settings diff [])))
compress_example = compress_with_store_lem toy settings diff [] (some [])

keys_example :
    ((compress_with_store toy settings diff [] (some [])).0.cache_key ≡ none)
      × ((compress_with_store toy settings diff [] (some [])).1 ≡ some [])
    ⊎ ((compress_with_store toy settings diff [] (some [])).0.cache_key ≡ some (codes "comm"))
      × ((compress_with_store toy settings diff [] (some [])).1 ≡ some ((codes "comm", diff) ∷ []))
      × (true ≡ true)
unfolding join
keys_example = compress_with_store-keys toy settings diff [] (some [])
