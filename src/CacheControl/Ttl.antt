-- ===== src/CacheControl/Ttl.antt =====
-- The ordering rule of the cache lanes: every 1-hour marker stands before every 5-minute one.
use lm_resizer.Base.{
  ℕ, suc, String, ◌≡◌, refl, ◌∙◌, Bool, false, ◌&&◌, ◌||◌, Option, none, some, List, [], ◌∷◌, ◌++◌,
  arith, any, if◌then◌else◌, unwrap_or, eq_iff,
}
use lm_resizer.Json.{JsonView, get_array}
use lm_resizer.CacheControl.{
  TtlOrderingWalk, new, is_5m, is_1h, observe, warn_if_violated, MessageWalk, extract_ttl,
  observe_block, observe_blocks, content_blocks, walk_block, walk_blocks, walk_messages_from,
  walk_messages, walk_system, walk_tools, compute_frozen_count,
}
use lm_resizer.CacheControl.Floor.{messages_of}

-- Some 1-hour marker stands after a 5-minute one.
abbrev pub out_of_order : List (Option String) → Bool
out_of_order [] = false
out_of_order (t ∷ ts) = (is_5m t && any is_1h ts) || out_of_order ts

abbrev observe_all : TtlOrderingWalk → List (Option String) → TtlOrderingWalk
observe_all w [] = w
observe_all w (t ∷ ts) = observe_all (observe w t) ts

-- No lifetime is of both lanes.
not-both : (t : Option String) → (is_5m t && is_1h t) ≡ false
not-both none = refl
not-both (some t) = ground (arith, eq_iff t "5m", eq_iff t "1h", eq_iff "5m" "1h")

violated-observe_all :
    (w : TtlOrderingWalk) (ts : List (Option String))
    → (observe_all w ts).violated ≡ (w.violated || (w.seen_5m && any is_1h ts) || out_of_order ts)
unfolding observe
violated-observe_all w [] = ground arith
violated-observe_all w (t ∷ ts) = ground (arith, violated-observe_all (observe w t) ts, not-both t)

module _ {V : Type 0} (j : JsonView V) where
  -- The lifetimes of the markers in a list of blocks, in order.
  abbrev pub lifetimes : List V → List (Option String)
  lifetimes [] = []
  lifetimes (b ∷ bs) = elim (j.get b "cache_control") [
    | none ↦ lifetimes bs
    | some marker ↦ extract_ttl j marker ∷ lifetimes bs
  ]

  abbrev pub message_lifetimes : List V → List (Option String)
  message_lifetimes [] = []
  message_lifetimes (m ∷ ms) = lifetimes (content_blocks j m) ++ message_lifetimes ms

  -- The blocks of a top-level field; a text has none.
  abbrev pub field_blocks : V → String → List V
  field_blocks parsed field = unwrap_or (get_array j parsed field) []

  observe_blocks-eq-observe_all :
      (w : TtlOrderingWalk) (bs : List V) → observe_blocks j w bs ≡ observe_all w (lifetimes bs)
  unfolding observe_blocks observe_block
  observe_blocks-eq-observe_all w [] = refl
  observe_blocks-eq-observe_all w (b ∷ bs) =
      ground (arith, observe_blocks-eq-observe_all (observe_block j w b) bs)

  observe_all-append :
      (w : TtlOrderingWalk) (ts us : List (Option String))
      → observe_all w (ts ++ us) ≡ observe_all (observe_all w ts) us
  observe_all-append w [] us = refl
  observe_all-append w (t ∷ ts) us = observe_all-append (observe w t) ts us

  ttl-walk_blocks :
      (i : ℕ) (w : MessageWalk) (bs : List V)
      → (walk_blocks j i w bs).ttl_walk ≡ observe_all w.ttl_walk (lifetimes bs)
  unfolding walk_blocks walk_block
  ttl-walk_blocks i w [] = refl
  ttl-walk_blocks i w (b ∷ bs) = ground (arith, ttl-walk_blocks i (walk_block j i w b) bs)

  ttl-walk_messages_from :
      (i : ℕ) (w : MessageWalk) (ms : List V)
      → (walk_messages_from j i w ms).ttl_walk ≡ observe_all w.ttl_walk (message_lifetimes ms)
  unfolding walk_messages_from
  ttl-walk_messages_from i w [] = refl
  ttl-walk_messages_from i w (m ∷ ms) =
      ttl-walk_messages_from (suc i) (walk_blocks j i w (content_blocks j m)) ms
      ∙ rw (ttl-walk_blocks, observe_all-append)

  abbrev warned : List (Option String) → String → List String
  warned ts field = if out_of_order ts then field ∷ [] else []

  warn-observe_all :
      (ts : List (Option String)) (field : String)
      → warn_if_violated (observe_all new ts) field ≡ warned ts field
  warn-observe_all ts field = ground (arith, violated-observe_all new ts)

  -- A field is warned of exactly when some 1-hour marker in it stands after a 5-minute one, a marker
  -- with no lifetime counting as 5 minutes: at most one warning for each of the three fields, the
  -- messages taken as one list.
  pub compute_frozen_count-warnings :
      (parsed : V)
      → (compute_frozen_count j parsed).1
        ≡ warned (message_lifetimes (messages_of j parsed)) "messages"
          ++ (warned (lifetimes (field_blocks parsed "system")) "system"
              ++ warned (lifetimes (field_blocks parsed "tools")) "tools")
  unfolding compute_frozen_count walk_messages walk_system walk_tools
  compute_frozen_count-warnings parsed = rw (
    ttl-walk_messages_from, observe_blocks-eq-observe_all, observe_blocks-eq-observe_all,
    warn-observe_all, warn-observe_all, warn-observe_all,
  )
