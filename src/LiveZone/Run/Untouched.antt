-- ===== src/LiveZone/Run/Untouched.antt =====
-- live_zone.rs: what a request keeps of its body.
use lm_resizer.Base.{
  ℕ, ◌≤◌, ◌<◌, ◌≡◌, refl, sym, ap, subst, ◌⊎◌, inl, inr, true, ◌||◌, not, Option, none, some, List,
  [], ◌∷◌, ◌++◌, map, length, get_elem?, take, drop, All, Bytes, ◌==◌, if_cases, arith,
}
use lm_resizer.Base.OnSome.{OnSome, OnSome-bind, OnSome-map}
use lm_resizer.Json.{JsonView, get_array}
use lm_resizer.LiveZone.{
  BlockOutcome, CompressionManifest, LiveZoneResult, failed, no_change, modified, panicked,
}
use lm_resizer.LiveZone.Manifest.{has_compressed_block, tokens_saved}
use lm_resizer.LiveZone.Splice.{Replacement}
use lm_resizer.LiveZone.Splice.Kept.{Chain, apply_replacements-Chain, range_of}
use lm_resizer.LiveZone.Plan.{RawValue, Views, PlanSlot, plan_some, plan_block_replacements}
use lm_resizer.LiveZone.Plan.Inside.{end_of, ElementsApart, slot_ranges, plan_some-Chain}
use lm_resizer.LiveZone.Query.{relevance_query_from_message}
use lm_resizer.LiveZone.Dispatch.{Services, Effects}
use lm_resizer.LiveZone.Run.{
  run_slots, Bodies, manifest_of, new_body, of_raw_value, finish, run_plan, compress_message,
  compress_latest, compress_messages, compress_body, compress_anthropic_live_zone_with_ccr,
}
use lm_resizer.LiveZone.Manifest.Saved.{Shrinks, compressed_of, saved_by_all-Shrinks}
use lm_resizer.LiveZone.Run.Latest.{find_latest_bounds, get_elem?_inside}
use lm_resizer.LiveZone.Run.Blocks.{run_slots-Chain, run_slots-Shrinks}

module _ {V : Type 0} (bodies : Bodies V) (v : Views) where
  -- Nothing of the body has changed, or one message that is not frozen: what stands before and after it
  -- is the same, byte by byte, and tokens are saved.
  abbrev pub OneMessage : Bytes → ℕ → LiveZoneResult → Type 0
  OneMessage body floor (failed error) = Unit
  OneMessage body floor (no_change manifest) = Unit
  OneMessage body floor panicked = ⊥
  OneMessage body floor (modified raw manifest) =
      (target : ℕ) × (messages : List RawValue) × (message : RawValue) × (middle : Bytes) × (floor
        ≤ target)
      × (v.messages body ≡ some messages)
      × (get_elem? messages target ≡ some message)
      × (bodies.raw_value (take message.start body ++ (middle ++ drop (end_of message) body))
          ≡ some raw)
      × (manifest.latest_user_message_index ≡ some target)
      × (0 < tokens_saved manifest)

  of_raw_value-OneMessage :
      (body : Bytes) (floor target : ℕ) (messages : List RawValue) (message : RawValue)
      (middle : Bytes) (manifest : CompressionManifest) (o : Option Bytes)
      → floor ≤ target
      → v.messages body ≡ some messages
      → get_elem? messages target ≡ some message
      → manifest.latest_user_message_index ≡ some target
      → 0 < tokens_saved manifest
      → bodies.raw_value (take message.start body ++ (middle ++ drop (end_of message) body)) ≡ o
      → OneMessage body floor (of_raw_value manifest o)
  of_raw_value-OneMessage body floor target messages message middle manifest none low e e' at saved
        raw =
      tt
  of_raw_value-OneMessage body floor target messages message middle manifest (some bytes) low e e'
        at saved raw =
      (target, messages, message, middle, low, e, e', raw, at, saved)

  finish-OneMessage :
      (body : Bytes) (floor total target : ℕ) (messages : List RawValue) (message : RawValue)
      (outcomes : List BlockOutcome) (replacements : List Replacement)
      → floor ≤ target
      → v.messages body ≡ some messages
      → get_elem? messages target ≡ some message
      → All (λ o. Shrinks o.action) outcomes
      → (replacements ≡ [])
        ⊎ (Chain message.start (end_of message) (map range_of replacements)
            × (end_of message ≤ length body))
      → OneMessage body floor
          (finish bodies body (manifest_of total floor (some target) outcomes) replacements)
  unfolding finish new_body has_compressed_block tokens_saved
  finish-OneMessage body floor total target messages message outcomes [] low e e' h chain =
      if_cases (OneMessage body floor)
        (not (has_compressed_block (manifest_of total floor (some target) outcomes)) || true) _ _
        (λ t. tt) (λ t. ground (arith, t))
  finish-OneMessage body floor total target messages message outcomes (r ∷ rs) low e e' h
        (inl nil) =
      ground (arith, nil)
  finish-OneMessage body floor total target messages message outcomes (r ∷ rs) low e e' h
        (inr (chain, inside)) =
      let (middle, new) =
        apply_replacements-Chain body message.start (end_of message) (r ∷ rs) chain inside in
      let manifest = manifest_of total floor (some target) outcomes in
      if_cases (OneMessage body floor) (not (has_compressed_block manifest) || length (r ∷ rs) == 0)
        _ _ (λ t. tt)
        (λ changed.
          subst (λ o. OneMessage body floor (new_body bodies manifest o)) (sym new)
            (of_raw_value-OneMessage body floor target messages message middle manifest _ low e e'
              refl (saved_by_all-Shrinks outcomes h (compressed_of _ _ changed)) refl))

module _ {V S : Type 0} (j : JsonView V) (bodies : Bodies V) (v : Views)
    (services : Services S) where
  -- A plan is made of one message of the body.
  abbrev IsPlan : Bytes → ℕ → List PlanSlot → Type 0
  IsPlan body target slots =
      (messages : List RawValue) × (message : RawValue) × (v.messages body ≡ some messages)
      × (get_elem? messages target ≡ some message)
      × ((slots ≡ [])
          ⊎ (Chain message.start (end_of message) (slot_ranges slots)
              × (end_of message ≤ length body)))

  plan_block_replacements-IsPlan :
      (body : Bytes) (target : ℕ)
      → ElementsApart v
      → OnSome (IsPlan body target) (plan_block_replacements v body target)
  unfolding plan_block_replacements
  plan_block_replacements-IsPlan body target apart =
      OnSome-bind (IsPlan body target) (v.messages body) _ (λ messages e.
        OnSome-bind (IsPlan body target) (get_elem? messages target) _ (λ message e'.
          OnSome-bind (IsPlan body target) (v.content message) _ (λ content e''.
            OnSome-map _ (IsPlan body target) (plan_some v body message content)
              (λ slots h. (messages, message, e, e', h))
              (plan_some-Chain v body message content apart))))

  replacements-Chain :
      (target : ℕ) (query : Bytes) (lo hi : ℕ) (slots : List PlanSlot) (store : Option S)
      (P : Type 0)
      → (slots ≡ []) ⊎ (Chain lo hi (slot_ranges slots) × P)
      → let effects : Effects S = record { replacements = []; store = store } in
        ((run_slots services target query slots effects).1.replacements ≡ [])
        ⊎ (Chain lo hi (map range_of (run_slots services target query slots effects).1.replacements)
            × P)
  unfolding run_slots
  replacements-Chain target query lo hi slots store P (inl e) = inl (
      ap
        (λ l.
          (run_slots services target query l
            (record { replacements = []; store = store })).1.replacements)
        e)
  replacements-Chain target query lo hi slots store P (inr (chain, p)) =
      let (extra, e, chain') =
        run_slots-Chain services target query lo hi slots
          (record { replacements = []; store = store }) chain in
      inr (subst (λ l. Chain lo hi (map range_of l)) (sym e) chain', p)

  run_plan-OneMessage :
      (body : Bytes) (total floor target : ℕ) (message : V) (store : Option S)
      (plan : Option (List PlanSlot))
      → floor ≤ target
      → OnSome (IsPlan body target) plan
      → OneMessage bodies v body floor
          (run_plan j bodies v services body total floor target message store plan).0
  unfolding run_plan
  run_plan-OneMessage body total floor target message store none low h = tt
  run_plan-OneMessage body total floor target message store (some plan) low
        (messages, raw, e, e', h) =
      let query = relevance_query_from_message j services.patterns.trim message in
      finish-OneMessage bodies v body floor total target messages raw _ _ low e e'
        (run_slots-Shrinks services target query plan _)
        (replacements-Chain target query raw.start (end_of raw) plan store _ h)

  compress_latest-OneMessage :
      (body : Bytes) (floor : ℕ) (messages : List V) (store : Option S) (latest : Option ℕ)
      → ElementsApart v
      → OnSome (λ target. (floor ≤ target) × (target < length messages)) latest
      → OneMessage bodies v body floor
          (compress_latest j bodies v services body floor messages store latest).0
  unfolding compress_latest compress_message
  compress_latest-OneMessage body floor messages store none apart h = tt
  compress_latest-OneMessage body floor messages store (some target) apart (low, inside) =
      let (message, e) = get_elem?_inside messages target inside in
      subst
        (λ o.
          OneMessage bodies v body floor
            (compress_message j bodies v services body (length messages) floor target o store).0)
        (sym e)
        (run_plan-OneMessage body (length messages) floor target message store
          (plan_block_replacements v body target) low
          (plan_block_replacements-IsPlan body target apart))

  compress_messages-OneMessage :
      (body : Bytes) (floor : ℕ) (store : Option S) (messages : Option (List V))
      → ElementsApart v
      → OneMessage bodies v body floor
          (compress_messages j bodies v services body floor store messages).0
  unfolding compress_messages
  compress_messages-OneMessage body floor store none apart = tt
  compress_messages-OneMessage body floor store (some messages) apart =
      if_cases {A = LiveZoneResult × Option S} (λ r. OneMessage bodies v body floor r.0)
        (length messages == 0) _ _ (λ e. tt)
        (λ e.
          compress_latest-OneMessage body floor messages store _ apart
            (find_latest_bounds j messages floor))

  -- With arrays whose elements follow each other in the body, the code does not panic, and a new body is
  -- the JSON value read from the bytes of the request with other bytes in the place of one message: all
  -- bytes before and after it are those of the request, it is not frozen, and the manifest names it and
  -- has saved tokens.
  pub compress_anthropic_live_zone_with_ccr-OneMessage :
      (body : Bytes) (frozen_message_count : ℕ) (store : Option S)
      → ElementsApart v
      → OneMessage bodies v body frozen_message_count
          (compress_anthropic_live_zone_with_ccr j bodies v services body frozen_message_count
            store).0
  unfolding compress_anthropic_live_zone_with_ccr compress_body
  compress_anthropic_live_zone_with_ccr-OneMessage body floor store apart =
      elim (bodies.parse body)
        as (λ o.
          OneMessage bodies v body floor (compress_body j bodies v services body floor store o).0) [
            | none ↦ tt
            | some parsed ↦
                compress_messages-OneMessage body floor store (get_array j parsed "messages") apart
          ]
