-- ===== src/Pipeline/Keys.antt =====
-- crates/lm-resizer-core/src/transforms/pipeline/orchestrator.rs: the cache keys of a result, and
-- the store that the offloads leave behind. What an offload owes is the third rule of the trait
-- `OffloadTransform` in traits.rs: it stores the payload before it returns, and the returned key
-- resolves in that store; that it drops no other payload is what makes the rule last.
use lm_resizer.Pipeline.{
  ContentType, Result, OffloadOutput, CompressionContext, OffloadTransform, Floats,
  OrchestratorConfig, CompressionPipeline, PipelineResult, take_offload, no_result, start,
  should_offload, offload_loop, run_phases, run, ok, err,
}
use lm_resizer.Base.{
  List, [], ◌∷◌, length, Bytes, All, All-append, Bool-cases, ◌==◌, inl, inr, All-map, String,
}

module _ {S : Type 0} (Resolves : String → S → Type 0) where
  unfoldable pub Returned : Result OffloadOutput → S → Type 0
  Returned (ok out) store = Resolves out.cache_key store
  Returned (err e) store = Unit

  -- The key that the offload returns resolves afterwards, and whatever resolved still does.
  abbrev pub StoresPayload : {F : Type 0} → OffloadTransform F S → Type 0
  StoresPayload o =
      (content : Bytes) (ctx : CompressionContext) (store : S)
      → Returned (o.apply content ctx store).0 (o.apply content ctx store).1
        × ((key : String) → Resolves key store → Resolves key (o.apply content ctx store).1)

  take_offload-Resolves :
      (name : String) (acc : PipelineResult) (answer : Result OffloadOutput) (store : S)
      → Returned answer store
      → All (λ key. Resolves key store) acc.cache_keys
      → All (λ key. Resolves key store) (take_offload name acc answer).cache_keys
  unfolding take_offload Returned
  take_offload-Resolves name acc (err e) store h keys = keys
  take_offload-Resolves name acc (ok out) store h keys = elim (Bool-cases (out.bytes_saved == 0)) [
    | inl e ↦ rw (e) keys
    | inr e ↦
        rw (e)
          (All-append (λ key. Resolves key store) acc.cache_keys (out.cache_key ∷ []) keys (h, _))
  ]

  module _ {R F : Type 0} (fl : Floats R F) where
    offload_loop-Resolves :
        (config : OrchestratorConfig R F) (ratio : R) (ctx : CompressionContext)
        (acc : PipelineResult) (store : S) (os : List (OffloadTransform F S)) (scores : List F)
        → All StoresPayload os
        → All (λ key. Resolves key store) acc.cache_keys
        → All
            (λ key. Resolves key (offload_loop fl config ratio ctx acc store os scores).1)
            (offload_loop fl config ratio ctx acc store os scores).0.cache_keys
    unfolding offload_loop
    offload_loop-Resolves config ratio ctx acc store [] scores h keys = keys
    offload_loop-Resolves config ratio ctx acc store (o ∷ os) [] h keys = keys
    offload_loop-Resolves config ratio ctx acc store (o ∷ os) (score ∷ scores) (ho, h) keys =
        elim (Bool-cases (should_offload fl config ratio score)) [
          | inl e ↦
              rw (e, offload_loop)
                (let kept = ho acc.output ctx store in
                  offload_loop-Resolves config ratio ctx
                    (take_offload o.name acc (o.apply acc.output ctx store).0)
                    (o.apply acc.output ctx store).1 os scores h
                    (take_offload-Resolves o.name acc (o.apply acc.output ctx store).0
                      (o.apply acc.output ctx store).1 kept.0 (All-map acc.cache_keys kept.1 keys)))
          | inr e ↦
              rw (e, offload_loop)
                (offload_loop-Resolves config ratio ctx acc store os scores h keys)
        ]

    -- When every offload registered for the content type leaves a store in which the key that it
    -- returns resolves, and all that resolved before, then every cache key of the result of `run`
    -- resolves in the store that `run` leaves.
    pub run-Resolves :
        (p : CompressionPipeline R F S) (content : Bytes) (content_type : ContentType)
        (ctx : CompressionContext) (store : S)
        → All StoresPayload (p.offloads_by_type content_type)
        → All
            (λ key. Resolves key (run fl p content content_type ctx store).1)
            (run fl p content content_type ctx store).0.cache_keys
    unfolding run run_phases start no_result
    run-Resolves p content content_type ctx store h = elim (Bool-cases (length content == 0)) [
      | inl e ↦ rw (e, run) _
      | inr e ↦
          rw (e, run)
            (offload_loop-Resolves p.config.pipeline _ ctx _ store (p.offloads_by_type content_type)
              _ h _)
    ]
