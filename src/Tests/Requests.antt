-- ===== src/Tests/Requests.antt =====
-- Requests for crates/lm-resizer-core/src/cache_control.rs and transforms/safety.rs.
use lm_resizer.Safety.{
  lookup, contains_str, insert_str, contains_pair, record_pair, respond, announce_ids,
  add_tool_calls, add_tool_uses, collect_assistant_tool_call_ids, announce, respond_blocks,
  scan_tool, scan_user, scan, tool_pair_indices,
}
use lm_resizer.CacheControl.{
  observe, observe_blocks, walk_block, walk_blocks, walk_messages_from, walk_messages, walk_system,
  walk_tools, compute_frozen_count,
}
use lm_resizer.Base.{
  ℕ, ◌+◌, ◌<◌, String, ◌≡◌, ◌⊎◌, refl, true, some, List, [], ◌∷◌, get_elem?, if◌then◌else◌,
}
use lm_resizer.Json.{
  Value, str, arr, obj, Elements, no_elements, element, Members, no_members, member, tree,
}
use lm_resizer.CacheControl.Floor.{
  compute_frozen_count_covers, compute_frozen_count_tight, messages_of, has_marker,
}
use lm_resizer.CacheControl.Ttl.{compute_frozen_count-warnings}
use lm_resizer.Safety.Pairs.Exact.{tool_pair_indices_lem, answered_at}
use lm_resizer.Safety.Pairs.Listed.{count_pair}

abbrev marker : String → Members → Members
marker ttl fs = member "cache_control" (obj (member "ttl" (str ttl) no_members)) fs

abbrev text_block : Members → Value
text_block fs = obj (member "type" (str "text") fs)

abbrev user : Elements → Value
user blocks = obj (member "role" (str "user") (member "content" (arr blocks) no_members))

-- Three messages, the second with a 5-minute marker and then a 1-hour one.
abbrev request : Value
request = obj (
    member "messages"
      (arr (
        element (user (element (text_block no_members) no_elements)) (
          element
            (user (
              element (text_block (marker "5m" no_members))
                (element (text_block (marker "1h" no_members)) no_elements)))
            (element (obj (member "role" (str "user") (member "content" (str "hello") no_members)))
              no_elements))))
      no_members)

frozen_of_request : compute_frozen_count tree request ≡ (2, "messages" ∷ [])
unfolding compute_frozen_count walk_messages walk_messages_from walk_blocks walk_block observe
    walk_system walk_tools observe_blocks
frozen_of_request = refl

abbrev marked_message : Value
marked_message = user (
    element (text_block (marker "5m" no_members))
      (element (text_block (marker "1h" no_members)) no_elements))

covers_example : 1 < (compute_frozen_count tree request).0
covers_example = compute_frozen_count_covers tree request 1 marked_message refl refl

tight_example :
    ((compute_frozen_count tree request).0 ≡ 0)
    ⊎ ((k : ℕ) × (m : Value) × (get_elem? (messages_of tree request) k ≡ some m)
        × (has_marker tree m ≡ true)
        × ((compute_frozen_count tree request).0 ≡ k + 1))
tight_example = compute_frozen_count_tight tree request

warnings_example : (compute_frozen_count tree request).1 ≡ "messages" ∷ []
warnings_example = compute_frozen_count-warnings tree request

-- A call, its answer by a tool message, and the same answer once more.
abbrev conversation : List Value
conversation =
    obj (
      member "role" (str "assistant") (
        member "tool_calls" (arr (element (obj (member "id" (str "t1") no_members)) no_elements))
          no_members))
    ∷ obj (member "role" (str "tool") (member "tool_call_id" (str "t1") no_members))
    ∷ user (
        element
          (obj (member "type" (str "tool_result") (member "tool_use_id" (str "t1") no_members)))
          (element
            (obj (member "type" (str "tool_result") (member "tool_use_id" (str "t1") no_members)))
            no_elements))
    ∷ []

pairs_of_conversation :
    tool_pair_indices tree conversation
    ≡ record { assistant_index = 0; response_index = 1 }
      ∷ record { assistant_index = 0; response_index = 2 }
      ∷ []
unfolding tool_pair_indices scan scan_tool scan_user respond_blocks respond record_pair
    contains_pair lookup announce announce_ids collect_assistant_tool_call_ids add_tool_calls
    add_tool_uses insert_str contains_str
pairs_of_conversation = refl

tool_pair_indices_example :
    count_pair (tool_pair_indices tree conversation) 0 2
    ≡ (if answered_at tree conversation (get_elem? conversation 2) 0 then 1 else 0)
tool_pair_indices_example = tool_pair_indices_lem tree conversation 0 2
