-- ===== src/Diff/Compress/Keys.antt =====
-- The retrieval key of `compress_with_store`, and the original behind it.
use lm_resizer.Base.Lines.{split_lines}
use lm_resizer.Diff.Compress.{
  Outside, pass_through_result, kept_files, compress_files, put_original, emit_key,
  compress_with_store,
}
use lm_resizer.Base.{
  ◌≡◌, refl, ◌⊎◌, inl, inr, ◌&&◌, ◌||◌, Option, none, some, Bytes, length, leb, ltb, Bool-cases,
  true, arith,
}
use lm_resizer.Diff.{DiffCompressorConfig, DiffCompressionResult}
use lm_resizer.Diff.Parse.{parse_diff}

module _ {F S : Type 0} (o : Outside F S) (config : DiffCompressorConfig) where
  emit_key-keys :
      (content : Bytes) (r : DiffCompressionResult) (store : Option S)
      → r.cache_key ≡ none
      → ((emit_key o config content r store).0.cache_key ≡ none)
          × ((emit_key o config content r store).1 ≡ store)
        ⊎ ((emit_key o config content r store).0.cache_key ≡ some (o.md5_hex_24 content))
          × ((emit_key o config content r store).1 ≡ put_original o config content store)
          × (config.enable_ccr ≡ true)
  unfolding emit_key
  emit_key-keys content r store bare =
      elim (Bool-cases
        (config.enable_ccr && o.meets_ratio r.compressed_line_count r.original_line_count)) [
          | inl keyed ↦ rw (keyed) (inr (refl, refl, ground (arith, keyed)))
          | inr plain ↦ rw (plain) (inl (bare, refl))
        ]

  -- Either the result has no key and the store is as it was; or keys are enabled, the key of the
  -- result is the digest of the text, and the text has been put into the store, where there is
  -- one, under this key.
  pub compress_with_store-keys :
      (content context : Bytes) (store : Option S)
      → ((compress_with_store o config content context store).0.cache_key ≡ none)
          × ((compress_with_store o config content context store).1 ≡ store)
        ⊎ ((compress_with_store o config content context store).0.cache_key
            ≡ some (o.md5_hex_24 content))
          × ((compress_with_store o config content context store).1
              ≡ put_original o config content store)
          × (config.enable_ccr ≡ true)
  unfolding compress_with_store pass_through_result compress_files
  compress_with_store-keys content context store =
      let parsed = parse_diff o.digit_width o.zero (split_lines content) in
      elim (Bool-cases (
        ltb (length (split_lines content)) config.min_lines_for_ccr
        || leb (length parsed.files) 0)) [
          | inl short ↦ rw (short) (inl (refl, refl))
          | inr long ↦ rw (long) (
              emit_key-keys content
                (compress_files o config content parsed.pre_diff_lines
                  (kept_files o config content context))
                store refl)
        ]
