-- ===== src/CacheControl.antt =====
-- crates/lm-resizer-core/src/cache_control.rs: the floor of the messages that the provider's prompt
-- cache pins. A log line at warning level is an element of the result's list of warned fields;
-- debug lines are left out.
pub mod Floor
pub mod Ttl
use lm_resizer.Base.{
  ℕ, zero, suc, ◌+◌, max, String, Bool, true, false, ◌&&◌, ◌||◌, Option, none, some, List, [], ◌∷◌,
  ◌++◌, if◌then◌else◌, unwrap_or, ◌>>=◌,
}
use lm_resizer.Json.{JsonView, get_array, get_str, is_str}

pub record TtlOrderingWalk : Type 0 where
  pub seen_5m : Bool
  pub violated : Bool

abbrev pub new : TtlOrderingWalk
new = record { seen_5m = false; violated = false }

-- No `ttl` means the 5-minute lane.
abbrev pub is_5m : Option String → Bool
is_5m none = true
is_5m (some t) = is_str (some t) "5m"

abbrev pub is_1h : Option String → Bool
is_1h ttl = is_str ttl "1h"

unfoldable pub observe : TtlOrderingWalk → Option String → TtlOrderingWalk
observe w ttl =
    if is_5m ttl
    then record w { seen_5m = true }
    else if is_1h ttl && w.seen_5m
    then record w { violated = true }
    else w

abbrev pub warn_if_violated : TtlOrderingWalk → String → List String
warn_if_violated w field = if w.violated then field ∷ [] else []

-- The state that `walk_messages` threads through its two loops.
pub record MessageWalk : Type 0 where
  pub ttl_walk : TtlOrderingWalk
  pub highest : Option ℕ

-- The floor that a highest marked index stands for.
abbrev pub floor : Option ℕ → ℕ
floor none = 0
floor (some i) = i + 1

abbrev pub bump : ℕ → Option ℕ → Option ℕ
bump i none = some i
bump i (some prev) = some (max prev i)

module _ {V : Type 0} (j : JsonView V) where
  abbrev pub extract_ttl : V → Option String
  extract_ttl marker = get_str j marker "ttl"

  -- One block of `walk_system` and `walk_tools`.
  unfoldable pub observe_block : TtlOrderingWalk → V → TtlOrderingWalk
  observe_block w block = elim (j.get block "cache_control") [
    | none ↦ w
    | some marker ↦ observe w (extract_ttl marker)
  ]

  unfoldable pub observe_blocks : TtlOrderingWalk → List V → TtlOrderingWalk
  observe_blocks w [] = w
  observe_blocks w (block ∷ blocks) = observe_blocks (observe_block w block) blocks

  unfoldable pub walk_block : ℕ → MessageWalk → V → MessageWalk
  walk_block i w block = elim (j.get block "cache_control") [
    | none ↦ w
    | some marker ↦ record {
      ttl_walk = observe w.ttl_walk (extract_ttl marker);
      highest = bump i w.highest;
    }
  ]

  unfoldable pub walk_blocks : ℕ → MessageWalk → List V → MessageWalk
  walk_blocks i w [] = w
  walk_blocks i w (block ∷ blocks) = walk_blocks i (walk_block i w block) blocks

  -- The blocks of `message.content`; a string has none.
  abbrev pub content_blocks : V → List V
  content_blocks message = unwrap_or (get_array j message "content") []

  unfoldable pub walk_messages_from : ℕ → MessageWalk → List V → MessageWalk
  walk_messages_from i w [] = w
  walk_messages_from i w (message ∷ messages) =
      walk_messages_from (suc i) (walk_blocks i w (content_blocks message)) messages

  unfoldable pub walk_messages : V → MessageWalk
  walk_messages parsed =
      walk_messages_from 0 (record { ttl_walk = new; highest = none })
        (unwrap_or (get_array j parsed "messages") [])

  unfoldable pub walk_system : V → TtlOrderingWalk
  walk_system parsed = observe_blocks new (unwrap_or (get_array j parsed "system") [])

  unfoldable pub walk_tools : V → TtlOrderingWalk
  walk_tools parsed = observe_blocks new (unwrap_or (get_array j parsed "tools") [])

  -- The floor, and the fields that a warning was logged for.
  unfoldable pub compute_frozen_count : V → ℕ × List String
  compute_frozen_count parsed =
      let w = walk_messages parsed in
      (
        floor w.highest,
        warn_if_violated w.ttl_walk "messages"
            ++ (warn_if_violated (walk_system parsed) "system"
                ++ warn_if_violated (walk_tools parsed) "tools"),
      )
