-- ===== src/Diff/Compress.antt =====
-- `format_output` and `compress_with_store`. The sidecar statistics are left out. What the code takes
-- from elsewhere is a parameter: the `md5` crate and the store, and the `f64` numbers with the score
-- that `score_hunks` computes in them.
pub mod Totals
pub mod Keys
use lm_resizer.Base.{
  ℕ, ◌+◌, ◌-◌, Bool, true, false, ◌&&◌, ◌||◌, Option, none, some, List, [], ◌∷◌, ◌++◌, map, take,
  length, Bytes, codes, is_empty, leb, ltb, ◌==◌, if◌then◌else◌,
}
use lm_resizer.Base.Decimal.{decimal}
use lm_resizer.Base.Lines.{split_lines, join}
use lm_resizer.Base.Sort.{sort_by}
use lm_resizer.Diff.{DiffHunk, DiffFile, ParsedDiff, DiffCompressorConfig, DiffCompressionResult}
use lm_resizer.Diff.Parse.{parse_diff}
use lm_resizer.Diff.Select.{select_hunks}
use lm_resizer.Diff.Context.{reduce_context}

pub record Outside (F S : Type 0) : Type 0 where
  -- The digits of the regular expressions, as in Patterns.
  pub digit_width : Bytes → ℕ
  pub zero : F
  pub greater : F → F → Bool
  pub score : Bytes → DiffHunk F → F
  -- `(compressed as f64) < (original as f64) * min_compression_ratio_for_ccr`.
  pub meets_ratio : ℕ → ℕ → Bool
  pub md5_hex_24 : Bytes → Bytes
  pub put : S → Bytes → Bytes → S

abbrev pub sum : List ℕ → ℕ
sum [] = 0
sum (n ∷ ns) = n + sum ns

abbrev unless_empty : Bytes → List Bytes
unless_empty line = if is_empty line then [] else line ∷ []

-- The footer.
unfoldable pub summary : ℕ → ℕ → ℕ → ℕ → List Bytes
summary files_affected additions deletions hunks_removed =
    if ltb 0 hunks_removed || ltb 0 files_affected
    then (codes "["
        ++ (join (codes ", ") (
              (decimal files_affected ++ codes " files changed")
              ∷ (codes "+"
                  ++ (decimal additions ++ (codes " -" ++ (decimal deletions ++ codes " lines"))))
              ∷ (if ltb 0 hunks_removed
                  then (decimal hunks_removed ++ codes " hunks omitted") ∷ []
                  else []))
            ++ codes "]"))
      ∷ []
    else []

module _ {F : Type 0} where
  unfoldable pub total_additions : DiffFile F → ℕ
  total_additions f = sum (map (λ h. h.additions) f.hunks)

  unfoldable pub total_deletions : DiffFile F → ℕ
  total_deletions f = sum (map (λ h. h.deletions) f.hunks)

  abbrev pub total_hunks : List (DiffFile F) → ℕ
  total_hunks files = sum (map (λ f. length f.hunks) files)

  unfoldable pub hunk_lines : List (DiffHunk F) → List Bytes
  hunk_lines [] = []
  hunk_lines (h ∷ hs) = (h.header ∷ h.lines) ++ hunk_lines hs

  abbrev mode_lines : DiffFile F → List Bytes
  mode_lines f =
      if f.is_new_file
      then codes "new file mode 100644" ∷ []
      else if f.is_deleted_file
      then codes "deleted file mode 100644" ∷ []
      else []

  -- The lines of one file.
  unfoldable pub file_lines : DiffFile F → List Bytes
  file_lines f =
      f.header
      ∷ (f.rename_lines
          ++ (mode_lines f
              ++ (if f.is_binary
                  then codes "Binary files differ" ∷ []
                  else unless_empty f.old_file ++ (unless_empty f.new_file ++ hunk_lines f.hunks))))

  unfoldable pub all_lines : List (DiffFile F) → List Bytes
  all_lines [] = []
  all_lines (f ∷ fs) = file_lines f ++ all_lines fs

  unfoldable pub format_output : List Bytes → List (DiffFile F) → ℕ → ℕ → ℕ → ℕ → Bytes
  format_output pre_diff_lines files files_affected additions deletions hunks_removed =
      join (10 ∷ []) (
        pre_diff_lines
        ++ (all_lines files ++ summary files_affected additions deletions hunks_removed))

unfoldable pub pass_through_result : Bytes → ℕ → DiffCompressionResult
pass_through_result content line_count = record {
  compressed = content;
  original_line_count = line_count;
  compressed_line_count = line_count;
  files_affected = 0;
  additions = 0;
  deletions = 0;
  hunks_kept = 0;
  hunks_removed = 0;
  cache_key = none;
}

module _ {F S : Type 0} (o : Outside F S) (config : DiffCompressorConfig) where
  score_hunk : Bytes → DiffHunk F → DiffHunk F
  score_hunk context h = record h { score = o.score context h }

  pub score_file : Bytes → DiffFile F → DiffFile F
  score_file context f = record f { hunks = map (score_hunk context) f.hunks }

  unfoldable pub score_hunks : Bytes → List (DiffFile F) → List (DiffFile F)
  score_hunks context files = map (score_file context) files

  abbrev pub more_changes : DiffFile F → DiffFile F → Bool
  more_changes a b =
      ltb (total_additions b + total_deletions b) (total_additions a + total_deletions a)

  -- The cap on the files: those with the most changes.
  unfoldable pub cap_files : List (DiffFile F) → List (DiffFile F)
  cap_files files =
      if leb (length files) config.max_files
      then files
      else take config.max_files (sort_by more_changes files)

  unfoldable pub compress_file : DiffFile F → DiffFile F
  compress_file f = record f {
    hunks =
        map (λ h. reduce_context h config.max_context_lines)
          (select_hunks o.digit_width o.greater f.hunks config.max_hunks_per_file).0;
  }

  -- The files that the loop over the files goes through.
  unfoldable pub kept_files : Bytes → Bytes → List (DiffFile F)
  kept_files content context =
      cap_files (score_hunks context (parse_diff o.digit_width o.zero (split_lines content)).files)

  -- `original_hunk_count - compressed_hunks.len()`.
  unfoldable pub removed_from : DiffFile F → ℕ
  removed_from f = length f.hunks - length (compress_file f).hunks

  -- The marker that names the key of the stored original.
  unfoldable pub marker : ℕ → ℕ → Bytes → Bytes
  marker original compressed key =
      codes "["
      ++ (decimal original
          ++ (codes " lines compressed to "
              ++ (decimal compressed
                  ++ (codes ". Retrieve full diff: hash=" ++ (key ++ codes "]")))))

  -- From the loop over the files on: the result without its key, and then with it.
  unfoldable pub compress_files : Bytes → List Bytes → List (DiffFile F) → DiffCompressionResult
  compress_files content pre_diff_lines files =
      let compressed_files = map compress_file files in
      let additions = sum (map total_additions files) in
      let deletions = sum (map total_deletions files) in
      let hunks_removed = sum (map removed_from files) in
      let output =
        format_output pre_diff_lines compressed_files (length compressed_files) additions deletions
          hunks_removed in
      record {
        compressed = output;
        original_line_count = length (split_lines content);
        compressed_line_count = length (split_lines output);
        files_affected = length compressed_files;
        additions = additions;
        deletions = deletions;
        hunks_kept = total_hunks compressed_files;
        hunks_removed = hunks_removed;
        cache_key = none;
      }

  abbrev pub put_original : Bytes → Option S → Option S
  put_original content none = none
  put_original content (some s) = some (o.put s (o.md5_hex_24 content) content)

  unfoldable pub emit_key :
      Bytes → DiffCompressionResult → Option S → DiffCompressionResult × Option S
  emit_key content r store =
      if config.enable_ccr && o.meets_ratio r.compressed_line_count r.original_line_count
      then (
        record r {
          compressed =
              r.compressed
              ++ (10 ∷ marker r.original_line_count r.compressed_line_count (o.md5_hex_24 content));
          cache_key = some (o.md5_hex_24 content);
        },
        put_original content store,
      )
      else (r, store)

  unfoldable pub compress_with_store : Bytes → Bytes → Option S → DiffCompressionResult × Option S
  compress_with_store content context store =
      let parsed = parse_diff o.digit_width o.zero (split_lines content) in
      if ltb (length (split_lines content)) config.min_lines_for_ccr || leb (length parsed.files) 0
      then (pass_through_result content (length (split_lines content)), store)
      else emit_key content
          (compress_files content parsed.pre_diff_lines (kept_files content context)) store
