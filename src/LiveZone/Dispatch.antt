-- ===== src/LiveZone/Dispatch.antt =====
-- live_zone.rs: what becomes of one block. `S` is the store. The compressors are parameters, and so are
-- the detector of content, the tokenizer, BLAKE3 and the JSON writer.
use lm_resizer.Base.{
  ℕ, ◌&&◌, not, Option, none, some, List, [], ◌∷◌, ◌++◌, length, Bytes, codes, is_empty, bytes_eq,
  ltb, leb, if◌then◌else◌,
}
use lm_resizer.Pipeline.{
  ContentType, json_array, source_code, search_results, build_output, git_diff, html, plain_text,
}
use lm_resizer.Gate.{Patterns, reinject_lost_failure_lines, ends_with_newline}
use lm_resizer.LiveZone.{
  BlockAction, no_compression_applied, compressed, compressor_error, rejected_not_smaller,
  below_byte_threshold, BlockOutcome, type_name, threshold_for,
}
use lm_resizer.LiveZone.Splice.{Replacement}

pub record Services (S : Type 0) : Type 0 where
  pub detect_content_type : Bytes → ContentType
  -- The crusher's text, where it modified anything: text and query.
  pub crush : Bytes → Bytes → Option Bytes
  pub compress_log : Bytes → Bytes
  pub compress_search : Bytes → Bytes → Bytes
  pub compress_diff : Bytes → Bytes → Bytes
  pub compress_source : Bytes → Bytes
  pub patterns : Patterns
  pub count_text : Bytes → ℕ
  pub compute_key : Bytes → Bytes
  pub put : S → Bytes → Bytes → S
  -- `serde_json::to_vec` of a string.
  pub json_string : Bytes → Bytes

pub data DispatchResult : Type 0 where
  no_op : Bytes → DispatchResult
  -- The strategy and the text.
  candidate : Bytes → Bytes → DispatchResult
  -- The strategy and the error.
  dispatch_error : Bytes → Bytes → DispatchResult

-- The result of a compressor, where it is another text.
abbrev pub unless_same : ContentType → Bytes → Bytes → Bytes → DispatchResult
unless_same content_type strategy text result =
    if bytes_eq result text then no_op (type_name content_type) else candidate strategy result

-- `marker_for`.
abbrev pub marker_for : Bytes → Bytes
marker_for hash = codes "<<ccr:" ++ (hash ++ codes ">>")

-- The block that the action is about.
pub record BlockPlace : Type 0 where
  pub message_index : ℕ
  pub block_index : Option ℕ
  pub block_type : Bytes

abbrev pub outcome_of : BlockPlace → BlockAction → BlockOutcome
outcome_of at action = record {
  message_index = at.message_index;
  block_index = at.block_index;
  block_type = at.block_type;
  action = action;
}

-- The replacements so far, and the store.
pub record Effects (S : Type 0) : Type 0 where
  pub replacements : List Replacement
  pub store : Option S

module _ {S : Type 0} (services : Services S) where
  unfoldable pub dispatch_by_type : ContentType → Bytes → Bytes → DispatchResult
  dispatch_by_type json_array text query = elim (services.crush text query) [
    | none ↦ no_op (type_name json_array)
    | some result ↦ candidate (codes "smart_crusher") result
  ]
  dispatch_by_type build_output text query =
      unless_same build_output (codes "log_compressor") text (services.compress_log text)
  dispatch_by_type search_results text query =
      unless_same search_results (codes "search_compressor") text
        (services.compress_search text query)
  dispatch_by_type git_diff text query =
      unless_same git_diff (codes "diff_compressor") text (services.compress_diff text query)
  dispatch_by_type source_code text query =
      unless_same source_code (codes "source_compressor") text (services.compress_source text)
  dispatch_by_type plain_text text query = no_op (type_name plain_text)
  dispatch_by_type html text query = no_op (type_name html)

  unfoldable pub dispatch_compressor_raw : Bytes → ContentType → Bytes → DispatchResult
  dispatch_compressor_raw text content_type query =
      if is_empty text
      then no_op (type_name content_type)
      else dispatch_by_type content_type text query

  -- The failure lines are put back, and a text that is no shorter is given up.
  unfoldable pub shorter_only : Bytes → ContentType → DispatchResult → DispatchResult
  shorter_only text content_type (candidate strategy result) =
      let restored = (reinject_lost_failure_lines services.patterns text result).0 in
      if leb (length text) (length restored)
      then no_op (type_name content_type)
      else candidate strategy restored
  shorter_only text content_type (no_op t) = no_op t
  shorter_only text content_type (dispatch_error strategy error) = dispatch_error strategy error

  unfoldable pub dispatch_compressor : Bytes → ContentType → Bytes → DispatchResult
  dispatch_compressor text content_type query =
      shorter_only text content_type (dispatch_compressor_raw text content_type query)

  unfoldable pub maybe_inject_ccr_marker : Bytes → Bytes → Option S → Bytes × Option Bytes
  maybe_inject_ccr_marker original result none = (result, none)
  maybe_inject_ccr_marker original result (some store) =
      let hash = services.compute_key original in
      let newline = if ends_with_newline result then [] else 10 ∷ [] in
      (result ++ (newline ++ marker_for hash), some hash)

  abbrev pub put_original : Option S → Option Bytes → Bytes → Option S
  put_original (some store) (some hash) text = some (services.put store hash text)
  put_original (some store) none text = some store
  put_original none hash text = none

  -- A candidate is taken where it has fewer tokens.
  unfoldable pub take_candidate :
      Bytes → ℕ × ℕ → BlockPlace → Effects S → Bytes → Bytes → BlockOutcome × Effects S
  take_candidate text range at effects strategy result =
      let (replacement, hash) = maybe_inject_ccr_marker text result effects.store in
      let before = services.count_text text in
      let after = services.count_text replacement in
      if leb before after
      then (
        outcome_of at
            (rejected_not_smaller strategy (length text) (length replacement) before after),
        effects,
      )
      else (
        outcome_of at (compressed strategy (length text) (length replacement) before after),
        record {
          replacements =
              effects.replacements
              ++ (record { range = range; replacement = services.json_string replacement } ∷ []);
          store = put_original effects.store hash text;
        },
      )

  unfoldable pub apply_dispatch :
      Bytes → ℕ × ℕ → BlockPlace → Effects S → DispatchResult → BlockOutcome × Effects S
  apply_dispatch text range at effects (no_op content_type) =
      (outcome_of at (no_compression_applied content_type), effects)
  apply_dispatch text range at effects (candidate strategy result) =
      take_candidate text range at effects strategy result
  apply_dispatch text range at effects (dispatch_error strategy error) =
      (outcome_of at (compressor_error strategy error), effects)

  unfoldable pub compress_one_block :
      Bytes → ContentType → Bytes → ℕ × ℕ → BlockPlace → Effects S → BlockOutcome × Effects S
  compress_one_block text content_type query range at effects =
      let threshold = threshold_for content_type in
      if not (is_empty text) && ltb (length text) threshold
      then (
        outcome_of at (below_byte_threshold (type_name content_type) (length text) threshold),
        effects,
      )
      else apply_dispatch text range at effects (dispatch_compressor text content_type query)
