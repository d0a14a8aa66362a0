-- ===== src/LiveZone/Run.antt =====
-- live_zone.rs: `compress_anthropic_live_zone_with_ccr`. `V` is the type of JSON values.
pub mod Blocks
pub mod Latest
pub mod Untouched
use lm_resizer.Base.{
  ℕ, zero, suc, ◌+◌, ◌-◌, min, Bool, true, false, ◌&&◌, ◌||◌, not, Option, none, some, List, [],
  ◌∷◌, ◌++◌, length, take, drop, get_elem?, String, Bytes, codes, is_empty, ltb, leb, ◌==◌,
  if◌then◌else◌, unwrap_or, ◌>>=◌,
}
use lm_resizer.Json.{JsonView, get_array, get_str, is_str}
use lm_resizer.LiveZone.{
  hot_zone_block_type, no_compression_applied, excluded, BlockOutcome, CompressionManifest,
  body_not_json, no_messages_array, LiveZoneResult, failed, no_change, modified, panicked,
}
use lm_resizer.LiveZone.Manifest.{has_compressed_block}
use lm_resizer.LiveZone.Splice.{Replacement, apply_replacements}
use lm_resizer.LiveZone.Plan.{
  Views, SlotKind, compressible, string_content, hot_zone, PlanSlot, is_hot,
  plan_block_replacements,
}
use lm_resizer.LiveZone.Query.{relevance_query_from_message}
use lm_resizer.LiveZone.Dispatch.{Services, BlockPlace, outcome_of, Effects, compress_one_block}

module _ {V : Type 0} (j : JsonView V) where
  -- The last message of a user among the messages from `offset` on, none of them below `start`.
  unfoldable pub find_from : ℕ → ℕ → List V → Option ℕ
  find_from start offset [] = none
  find_from start offset (m ∷ messages) = elim (find_from start (suc offset) messages) [
    | some i ↦ some i
    | none ↦ if leb start offset && is_str (get_str j m "role") "user" then some offset else none
  ]

  unfoldable pub find_latest_user_message_index : List V → ℕ → Option ℕ
  find_latest_user_message_index messages floor = find_from (min floor (length messages)) 0 messages

  unfoldable pub inspect_blocks : ℕ → ℕ → List V → List BlockOutcome
  inspect_blocks message_index i [] = []
  inspect_blocks message_index i (block ∷ blocks) =
      let block_type = codes (unwrap_or (get_str j block "type") "unknown") in
      record {
        message_index = message_index;
        block_index = some i;
        block_type = block_type;
        action =
            if is_hot block_type
            then excluded hot_zone_block_type
            else no_compression_applied (codes "unknown");
      }
      ∷ inspect_blocks message_index (suc i) blocks

  unfoldable pub inspect_latest_user_blocks_value : V → ℕ → Option (List BlockOutcome)
  inspect_latest_user_blocks_value message message_index = do
    content ← j.get message "content"
    elim (j.as_str content) [
      | some s ↦ some (
          record {
            message_index = message_index;
            block_index = none;
            block_type = codes "string_content";
            action = no_compression_applied (codes "text");
          }
          ∷ [])
      | none ↦ (j.as_array content >>= λ blocks. some (inspect_blocks message_index 0 blocks))
    ]

module _ {S : Type 0} (services : Services S) where
  unfoldable pub run_slot : ℕ → Bytes → PlanSlot → Effects S → BlockOutcome × Effects S
  run_slot target query slot effects = elim slot.kind [
    | hot_zone block_type ↦ (
      outcome_of
          (record {
            message_index = target;
            block_index = some slot.block_index;
            block_type = block_type;
          })
          (excluded hot_zone_block_type),
      effects,
    )
    | compressible block_type text range ↦
        compress_one_block services text (services.detect_content_type text) query range
          (record {
            message_index = target;
            block_index = some slot.block_index;
            block_type = block_type;
          })
          effects
    | string_content text range ↦
        compress_one_block services text (services.detect_content_type text) query range
          (record {
            message_index = target;
            block_index = none;
            block_type = codes "string_content";
          })
          effects
  ]

  unfoldable pub run_slots : ℕ → Bytes → List PlanSlot → Effects S → List BlockOutcome × Effects S
  run_slots target query [] effects = ([], effects)
  run_slots target query (slot ∷ slots) effects =
      let (outcome, next) = run_slot target query slot effects in
      let (outcomes, last) = run_slots target query slots next in (outcome ∷ outcomes, last)

-- What is read of a request: the value of the body, and the bytes of the JSON value in a text
-- (`from_utf8` and `RawValue::from_string`).
pub record Bodies (V : Type 0) : Type 0 where
  pub parse : Bytes → Option V
  pub raw_value : Bytes → Option Bytes

-- The manifest of a request with messages.
abbrev pub manifest_of : ℕ → ℕ → Option ℕ → List BlockOutcome → CompressionManifest
manifest_of total floor target outcomes = record {
  messages_total = total;
  messages_below_frozen_floor = min floor total;
  latest_user_message_index = target;
  block_outcomes = outcomes;
}

abbrev pub empty_manifest : CompressionManifest
empty_manifest = manifest_of 0 0 none []

-- The body is left as it was where the new one is no JSON value.
abbrev pub of_raw_value : CompressionManifest → Option Bytes → LiveZoneResult
of_raw_value manifest none = no_change manifest
of_raw_value manifest (some raw) = modified raw manifest

module _ {V : Type 0} (bodies : Bodies V) where
  unfoldable pub new_body : CompressionManifest → Option Bytes → LiveZoneResult
  new_body manifest none = panicked
  new_body manifest (some bytes) = of_raw_value manifest (bodies.raw_value bytes)

  unfoldable pub finish : Bytes → CompressionManifest → List Replacement → LiveZoneResult
  finish body manifest replacements =
      if not (has_compressed_block manifest) || length replacements == 0
      then no_change manifest
      else new_body manifest (apply_replacements body replacements)

module _ {V S : Type 0} (j : JsonView V) (bodies : Bodies V) (v : Views)
    (services : Services S) where
  -- What is observed of the message, where there is no plan.
  abbrev pub observed : V → ℕ → List BlockOutcome
  observed message target = unwrap_or (inspect_latest_user_blocks_value j message target) []

  unfoldable pub run_plan :
      Bytes → ℕ → ℕ → ℕ → V → Option S → Option (List PlanSlot) → LiveZoneResult × Option S
  run_plan body total floor target message store none =
      (no_change (manifest_of total floor (some target) (observed message target)), store)
  run_plan body total floor target message store (some plan) =
      let query = relevance_query_from_message j services.patterns.trim message in
      let (outcomes, effects) =
        run_slots services target query plan (record { replacements = []; store = store }) in
      (
        finish bodies body (manifest_of total floor (some target) outcomes) effects.replacements,
        effects.store,
      )

  -- `messages[target]` is there, since the target is the place of one.
  unfoldable pub compress_message :
      Bytes → ℕ → ℕ → ℕ → Option V → Option S → LiveZoneResult × Option S
  compress_message body total floor target none store = (panicked, store)
  compress_message body total floor target (some message) store =
      run_plan body total floor target message store (plan_block_replacements v body target)

  unfoldable pub compress_latest :
      Bytes → ℕ → List V → Option S → Option ℕ → LiveZoneResult × Option S
  compress_latest body floor messages store none =
      (no_change (manifest_of (length messages) floor none []), store)
  compress_latest body floor messages store (some target) =
      compress_message body (length messages) floor target (get_elem? messages target) store

  unfoldable pub compress_messages :
      Bytes → ℕ → Option S → Option (List V) → LiveZoneResult × Option S
  compress_messages body floor store none = (failed no_messages_array, store)
  compress_messages body floor store (some messages) =
      if length messages == 0
      then (no_change empty_manifest, store)
      else compress_latest body floor messages store
          (find_latest_user_message_index j messages floor)

  unfoldable pub compress_body : Bytes → ℕ → Option S → Option V → LiveZoneResult × Option S
  compress_body body floor store none = (failed body_not_json, store)
  compress_body body floor store (some parsed) =
      compress_messages body floor store (get_array j parsed "messages")

  unfoldable pub compress_anthropic_live_zone_with_ccr :
      Bytes → ℕ → Option S → LiveZoneResult × Option S
  compress_anthropic_live_zone_with_ccr body frozen_message_count store =
      compress_body body frozen_message_count store (bodies.parse body)
