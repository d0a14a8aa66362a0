-- ===== src/LiveZone/Run/Blocks.antt =====
-- live_zone.rs: what the blocks of a message come to. A block adds one replacement at most, of its own
-- range, and is compressed only where it has fewer tokens then.
use lm_resizer.Base.{
  ℕ, ◌≤◌, ◌≡◌, refl, sym, ap, subst, ◌∙◌, ◌⊎◌, inl, inr, ◌&&◌, not, List, [], ◌∷◌, ◌++◌, map,
  length, All, Bytes, is_empty, ltb, leb, if_cases, append_nil, append_step, arith,
}
use lm_resizer.Base.OnSome.{if_holds}
use lm_resizer.Pipeline.{ContentType}
use lm_resizer.LiveZone.{BlockOutcome, threshold_for}
use lm_resizer.LiveZone.Manifest.Saved.{Shrinks}
use lm_resizer.LiveZone.Splice.{Replacement}
use lm_resizer.LiveZone.Splice.Kept.{Chain, Chain-lower, range_of}
use lm_resizer.LiveZone.Plan.{SlotKind, compressible, string_content, hot_zone, PlanSlot}
use lm_resizer.LiveZone.Plan.Inside.{add_range, slot_ranges}
use lm_resizer.LiveZone.Dispatch.{
  Services, DispatchResult, no_op, candidate, dispatch_error, BlockPlace, Effects,
  maybe_inject_ccr_marker, take_candidate, apply_dispatch, dispatch_compressor, compress_one_block,
}
use lm_resizer.LiveZone.Run.{run_slot, run_slots}

-- One replacement of the range at most is added.
abbrev pub Pushes : ℕ × ℕ → List Replacement → List Replacement → Type 0
Pushes range old new =
    (new ≡ old) ⊎ ((r : Replacement) × (new ≡ old ++ (r ∷ [])) × (r.range ≡ range))

abbrev KindPushes : SlotKind → List Replacement → List Replacement → Type 0
KindPushes (compressible block_type text range) old new = Pushes range old new
KindPushes (string_content text range) old new = Pushes range old new
KindPushes (hot_zone block_type) old new = new ≡ old

-- `last` is `old` with replacements of ranges from `lo` to `hi`.
abbrev pub Extends : ℕ → ℕ → List Replacement → List Replacement → Type 0
Extends lo hi old last =
    (extra : List Replacement) × (last ≡ old ++ extra) × Chain lo hi (map range_of extra)

Pushes-Extends :
    (lo hi : ℕ) (range : ℕ × ℕ) (ranges : List (ℕ × ℕ)) (old new last : List Replacement)
    → Chain lo hi (range ∷ ranges)
    → Pushes range old new
    → ((low : ℕ) → Chain low hi ranges → Extends low hi new last)
    → Extends lo hi old last
Pushes-Extends lo hi range ranges old new last (a, b, chain) (inl e) go =
    subst (λ l. Extends lo hi l last) e
      (go lo (Chain-lower range.1 lo hi ranges (omega (arith, a, b)) chain))
Pushes-Extends lo hi range ranges old new last (a, b, chain) (inr (r, e, at)) go =
    let (extra, e', chain') = go range.1 chain in
    (
      r ∷ extra,
      e' ∙ ap (λ l. l ++ extra) e ∙ append_step old r extra,
      subst (λ g. (lo ≤ g.0) × (g.0 ≤ g.1) × Chain g.1 hi (map range_of extra)) (sym at)
          (a, b, chain'),
    )

KindPushes-Extends :
    (lo hi : ℕ) (kind : SlotKind) (ranges : List (ℕ × ℕ)) (old new last : List Replacement)
    → Chain lo hi (add_range kind ranges)
    → KindPushes kind old new
    → ((low : ℕ) → Chain low hi ranges → Extends low hi new last)
    → Extends lo hi old last
KindPushes-Extends lo hi (compressible block_type text range) ranges old new last chain h go =
    Pushes-Extends lo hi range ranges old new last chain h go
KindPushes-Extends lo hi (string_content text range) ranges old new last chain h go =
    Pushes-Extends lo hi range ranges old new last chain h go
KindPushes-Extends lo hi (hot_zone block_type) ranges old new last chain h go =
    subst (λ l. Extends lo hi l last) h (go lo chain)

module _ {S : Type 0} (services : Services S) where
  abbrev Fits : ℕ × ℕ → Effects S → BlockOutcome × Effects S → Type 0
  Fits range effects result =
      Pushes range effects.replacements result.1.replacements × Shrinks result.0.action

  take_candidate-Fits :
      (text : Bytes) (range : ℕ × ℕ) (at : BlockPlace) (effects : Effects S)
      (strategy result : Bytes)
      → Fits range effects (take_candidate services text range at effects strategy result)
  unfolding take_candidate
  take_candidate-Fits text range at effects strategy result =
      let replacement = (maybe_inject_ccr_marker services text result effects.store).0 in
      if_cases (Fits range effects)
        (leb (services.count_text text) (services.count_text replacement)) _ _
        (λ more. (inl refl, tt)) (λ fewer. (inr (_, refl, refl), ground (arith, fewer)))

  apply_dispatch-Fits :
      (text : Bytes) (range : ℕ × ℕ) (at : BlockPlace) (effects : Effects S) (d : DispatchResult)
      → Fits range effects (apply_dispatch services text range at effects d)
  unfolding apply_dispatch
  apply_dispatch-Fits text range at effects (no_op t) = (inl refl, tt)
  apply_dispatch-Fits text range at effects (candidate strategy result) =
      take_candidate-Fits text range at effects strategy result
  apply_dispatch-Fits text range at effects (dispatch_error strategy error) = (inl refl, tt)

  compress_one_block-Fits :
      (text : Bytes) (t : ContentType) (query : Bytes) (range : ℕ × ℕ) (at : BlockPlace)
      (effects : Effects S)
      → Fits range effects (compress_one_block services text t query range at effects)
  unfolding compress_one_block
  compress_one_block-Fits text t query range at effects =
      if_holds (Fits range effects) (not (is_empty text) && ltb (length text) (threshold_for t)) _ _
        (inl refl, tt)
        (apply_dispatch-Fits text range at effects (dispatch_compressor services text t query))

  run_slot-Fits :
      (target : ℕ) (query : Bytes) (slot : PlanSlot) (effects : Effects S)
      → KindPushes slot.kind effects.replacements
          (run_slot services target query slot effects).1.replacements
        × Shrinks (run_slot services target query slot effects).0.action
  unfolding run_slot
  run_slot-Fits target query slot effects =
      elim slot.kind
        as (λ kind.
          KindPushes kind effects.replacements
            (run_slot services target query (record { block_index = slot.block_index; kind = kind })
              effects).1.replacements
          × Shrinks
              (run_slot services target query
                (record { block_index = slot.block_index; kind = kind }) effects).0.action) [
                  | compressible block_type text range ↦
                      compress_one_block-Fits text (services.detect_content_type text) query range _
                        effects
                  | string_content text range ↦
                      compress_one_block-Fits text (services.detect_content_type text) query range _
                        effects
                  | hot_zone block_type ↦ (refl, tt)
                ]

  -- The replacements of a message keep the order of its blocks.
  pub run_slots-Chain :
      (target : ℕ) (query : Bytes) (lo hi : ℕ) (slots : List PlanSlot) (effects : Effects S)
      → Chain lo hi (slot_ranges slots)
      → Extends lo hi effects.replacements
          (run_slots services target query slots effects).1.replacements
  unfolding run_slots
  run_slots-Chain target query lo hi [] effects chain =
      ([], sym (append_nil effects.replacements), chain)
  run_slots-Chain target query lo hi (slot ∷ slots) effects chain =
      let next = (run_slot services target query slot effects).1 in
      KindPushes-Extends lo hi slot.kind (slot_ranges slots) effects.replacements next.replacements
        _ chain (run_slot-Fits target query slot effects).0
        (λ low chain'. run_slots-Chain target query low hi slots next chain')

  pub run_slots-Shrinks :
      (target : ℕ) (query : Bytes) (slots : List PlanSlot) (effects : Effects S)
      → All (λ o. Shrinks o.action) (run_slots services target query slots effects).0
  unfolding run_slots
  run_slots-Shrinks target query [] effects = tt
  run_slots-Shrinks target query (slot ∷ slots) effects = (
    (run_slot-Fits target query slot effects).1,
    run_slots-Shrinks target query slots (run_slot services target query slot effects).1,
  )
