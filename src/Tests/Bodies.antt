-- ===== src/Tests/Bodies.antt =====
-- Runs of the live zone.
use lm_resizer.Base.{
  ℕ, zero, suc, ◌+◌, ◌≡◌, refl, false, Option, none, some, List, [], ◌∷◌, ◌++◌, length, Bytes,
  codes, arith,
}
use lm_resizer.Base.OnSome.{OnSome-at}
use lm_resizer.Base.Sort.{sort_by, insert_sorted}
use lm_resizer.Json.{Value, str, obj, arr, member, no_members, element, no_elements, tree}
use lm_resizer.Pipeline.{build_output}
use lm_resizer.Gate.{
  Patterns, reinject_lost_failure_lines, lost_failure_lines, lines_of, kept_lines, next_run, run_at,
  explains, reports_failure, is_failure_signal, count_present, not_present,
}
use lm_resizer.LiveZone.{LiveZoneResult, modified}
use lm_resizer.LiveZone.Manifest.{has_compressed_block}
use lm_resizer.LiveZone.Splice.{apply_replacements, splice_from, slice}
use lm_resizer.LiveZone.Plan.{
  RawValue, Views, plan_block_replacements, plan_some, plan_content, plan_blocks, block_slot,
  block_type_of, inner_field, field_slot, bytes_offset_of,
}
use lm_resizer.LiveZone.Plan.Inside.{ElementsApart, RawApart}
use lm_resizer.LiveZone.Dispatch.{
  Services, compress_one_block, apply_dispatch, take_candidate, maybe_inject_ccr_marker,
  dispatch_compressor, dispatch_compressor_raw, dispatch_by_type, shorter_only,
}
use lm_resizer.LiveZone.Query.{
  relevance_query_from_message, text_of, push_parts, push_part, truncate_on_char_boundary,
  boundary_before,
}
use lm_resizer.LiveZone.Run.{
  Bodies, compress_anthropic_live_zone_with_ccr, compress_body, compress_messages, compress_latest,
  compress_message, run_plan, finish, new_body, find_latest_user_message_index, find_from,
  run_slots, run_slot,
}
use lm_resizer.LiveZone.OpenAi.{
  compress_openai_chat_live_zone, compress_chat_messages, run_all_slots, run_openai_slots,
  latest_user_query, find_latest_role_index, find_role, plan_openai_user_message, user_slots,
  plan_parts, part_slot, text_slot, content_offset,
}
use lm_resizer.LiveZone.Run.Untouched.{OneMessage, compress_anthropic_live_zone_with_ccr-OneMessage}

abbrev body : Bytes
body = codes "{\"messages\":[{},{\"content\":[\"one\",\"two\"]}]}"

abbrev raw : ℕ → Bytes → RawValue
raw start text = record { start = start; text = text }

abbrev repeat : ℕ → Bytes
repeat zero = []
repeat (suc n) = 97 ∷ repeat n

-- The blocks are the strings themselves, each of them said to stand for a long text.
abbrev views : Views
views = record {
  messages =
      λ b. some (raw 13 (codes "{}") ∷ raw 16 (codes "{\"content\":[\"one\",\"two\"]}") ∷ []);
  content = λ m. some (some (raw (m.start + 11) (codes "[\"one\",\"two\"]")));
  elements =
      λ c. some (raw (c.start + 1) (codes "\"one\"") ∷ raw (c.start + 7) (codes "\"two\"") ∷ []);
  header = λ b. some (some (codes "text"), none);
  text = λ b. some (some b);
  string = λ s. some (repeat 600);
  trim_start = λ s. s;
}

abbrev patterns : Patterns
patterns = record {
  failure_signal = λ s. false;
  labelled = λ s. false;
  strip_sgr = λ s. s;
  trim = λ s. s;
  trim_start = λ s. s;
}

abbrev services : Services (List (Bytes × Bytes))
services = record {
  detect_content_type = λ s. build_output;
  crush = λ s q. none;
  compress_log = λ s. codes "x";
  compress_search = λ s q. s;
  compress_diff = λ s q. s;
  compress_source = λ s. s;
  patterns = patterns;
  count_text = length;
  compute_key = λ s. codes "key";
  put = λ s k v. (k, v) ∷ s;
  json_string = λ s. 34 ∷ s ++ (34 ∷ []);
}

abbrev user : Value
user = obj (member "role" (str "user") no_members)

abbrev bodies : Bodies Value
bodies = record {
  parse = λ b.
      some (obj (member "messages" (arr (element user (element user no_elements))) no_members));
  raw_value = some;
}

views-ElementsApart : ElementsApart views
views-ElementsApart content blocks e =
    OnSome-at (RawApart content.start) (views.elements content) blocks (omega arith) e

request_example :
    OneMessage bodies views body 1
      (compress_anthropic_live_zone_with_ccr tree bodies views services body 1 none).0
request_example =
    compress_anthropic_live_zone_with_ccr-OneMessage tree bodies views services body 1 none
      views-ElementsApart

abbrev text_of_result : LiveZoneResult → Option Bytes
text_of_result (modified bytes manifest) = some bytes
text_of_result result = none

body_run :
    text_of_result (compress_anthropic_live_zone_with_ccr tree bodies views services body 1 none).0
    ≡ some (codes "{\"messages\":[{},{\"content\":[\"x\",\"x\"]}]}")
unfolding compress_anthropic_live_zone_with_ccr compress_body compress_messages compress_latest
    compress_message run_plan finish new_body find_latest_user_message_index find_from
    plan_block_replacements plan_some plan_content plan_blocks block_slot block_type_of inner_field
    field_slot bytes_offset_of run_slots run_slot compress_one_block apply_dispatch take_candidate
    maybe_inject_ccr_marker dispatch_compressor dispatch_compressor_raw dispatch_by_type
    shorter_only reinject_lost_failure_lines lost_failure_lines lines_of kept_lines next_run run_at
    explains reports_failure is_failure_signal count_present not_present apply_replacements
    splice_from slice sort_by insert_sorted has_compressed_block relevance_query_from_message
    text_of push_parts push_part truncate_on_char_boundary boundary_before
body_run = refl

chat_run :
    text_of_result (compress_openai_chat_live_zone tree bodies views services body)
    ≡ some (codes "{\"messages\":[{},{\"content\":[\"x\",\"x\"]}]}")
unfolding compress_openai_chat_live_zone compress_chat_messages run_all_slots run_openai_slots
    latest_user_query find_latest_role_index find_role plan_openai_user_message user_slots
    plan_parts part_slot text_slot content_offset finish new_body bytes_offset_of compress_one_block
    apply_dispatch take_candidate maybe_inject_ccr_marker dispatch_compressor
    dispatch_compressor_raw dispatch_by_type shorter_only reinject_lost_failure_lines
    lost_failure_lines lines_of kept_lines next_run run_at explains reports_failure
    is_failure_signal count_present not_present apply_replacements splice_from slice sort_by
    insert_sorted has_compressed_block relevance_query_from_message text_of push_parts push_part
    truncate_on_char_boundary boundary_before
chat_run = refl
