-- ===== src/Pipeline/Refusals.antt =====
-- crates/lm-resizer-core/src/transforms/pipeline/orchestrator.rs: `run` when no transform helps,
-- by an error of any kind or by an answer that saves no byte.
use lm_resizer.Pipeline.{
  ContentType, Result, ReformatOutput, OffloadOutput, CompressionContext, ReformatTransform,
  OffloadTransform, Floats, OrchestratorConfig, CompressionPipeline, PipelineResult,
  ReformatAccumulator, take_reformat, take_offload, no_result, start, reformat_loop, run_reformats,
  should_offload, offload_loop, run_phases, run, ok, err,
}
use lm_resizer.Base.{
  ℕ, ◌≡◌, false, List, [], ◌∷◌, length, Bytes, All, Bool-cases, arith, max, ◌==◌, inl, inr, String,
  refl, ap, ◌∙◌, suc,
}

suc-positive : (n : ℕ) → (suc n == 0) ≡ false
suc-positive n = ground arith

-- The answer is an error, or claims no saving.
unfoldable pub DeclinesReformat : Result ReformatOutput → Type 0
DeclinesReformat (ok out) = out.bytes_saved ≡ 0
DeclinesReformat (err e) = Unit

unfoldable pub DeclinesOffload : Result OffloadOutput → Type 0
DeclinesOffload (ok out) = out.bytes_saved ≡ 0
DeclinesOffload (err e) = Unit

take_reformat-Declines :
    (name : String) (acc : ReformatAccumulator) (answer : Result ReformatOutput)
    → DeclinesReformat answer
    → take_reformat name acc answer ≡ acc
unfolding take_reformat DeclinesReformat
take_reformat-Declines name acc (err e) h = refl
take_reformat-Declines name acc (ok out) h = rw (h) refl

take_offload-Declines :
    (name : String) (acc : PipelineResult) (answer : Result OffloadOutput)
    → DeclinesOffload answer
    → take_offload name acc answer ≡ acc
unfolding take_offload DeclinesOffload
take_offload-Declines name acc (err e) h = refl
take_offload-Declines name acc (ok out) h = rw (h) refl

module _ {R F : Type 0} (fl : Floats R F) where
  reformat_loop-Declines :
      (target : R) (len : ℕ) (acc : ReformatAccumulator) (ts : List ReformatTransform)
      → All (λ t. (content : Bytes) → DeclinesReformat (t.apply content)) ts
      → reformat_loop fl target len acc ts ≡ acc
  unfolding reformat_loop
  reformat_loop-Declines target len acc [] h = refl
  reformat_loop-Declines target len acc (t ∷ ts) (ht, h) =
      elim (Bool-cases (fl.ratio_le (fl.ratio (length acc.output) (max len 1)) target)) [
        | inl e ↦ rw (e, reformat_loop) refl
        | inr e ↦
            rw (e, reformat_loop)
              (rw (take_reformat-Declines t.name acc (t.apply acc.output) (ht acc.output))
                (reformat_loop-Declines target len acc ts h))
      ]

  module _ {S : Type 0} where
    offload_loop-Declines :
        (config : OrchestratorConfig R F) (ratio : R) (ctx : CompressionContext)
        (acc : PipelineResult) (store : S) (os : List (OffloadTransform F S)) (scores : List F)
        → All
            (λ o.
              (content : Bytes) (c : CompressionContext) (st : S)
              → DeclinesOffload (o.apply content c st).0)
            os
        → (offload_loop fl config ratio ctx acc store os scores).0 ≡ acc
    unfolding offload_loop
    offload_loop-Declines config ratio ctx acc store [] scores h = refl
    offload_loop-Declines config ratio ctx acc store (o ∷ os) [] h = refl
    offload_loop-Declines config ratio ctx acc store (o ∷ os) (score ∷ scores) (ho, h) =
        elim (Bool-cases (should_offload fl config ratio score)) [
          | inl e ↦
              rw (e, offload_loop)
                (rw
                  (take_offload-Declines o.name acc (o.apply acc.output ctx store).0
                    (ho acc.output ctx store))
                  (offload_loop-Declines config ratio ctx acc (o.apply acc.output ctx store).1 os
                    scores h))
          | inr e ↦
              rw (e, offload_loop) (offload_loop-Declines config ratio ctx acc store os scores h)
        ]

    -- When every transform registered for the content type answers with an error or with a saving of
    -- zero bytes, whatever it is given, the result of `run` is the content itself, with no byte
    -- saved, no step and no cache key.
    pub run-Declines :
        (p : CompressionPipeline R F S) (content : Bytes) (content_type : ContentType)
        (ctx : CompressionContext) (store : S)
        → All (λ t. (c : Bytes) → DeclinesReformat (t.apply c)) (p.reformats_by_type content_type)
        → All
            (λ o.
              (c : Bytes) (x : CompressionContext) (st : S) → DeclinesOffload (o.apply c x st).0)
            (p.offloads_by_type content_type)
        → (run fl p content content_type ctx store).0
          ≡ (record { output = content; bytes_saved = 0; steps_applied = []; cache_keys = [] })
    unfolding run run_phases run_reformats start no_result
    run-Declines p [] content_type ctx store hr ho = refl
    run-Declines p (b ∷ bs) content_type ctx store hr ho =
        rw (suc-positive (length bs), run)
          (offload_loop-Declines p.config.pipeline _ ctx _ store (p.offloads_by_type content_type) _
              ho
            ∙ ap start (
                reformat_loop-Declines p.config.pipeline.reformat_target_ratio (length (b ∷ bs)) _
                  (p.reformats_by_type content_type) hr))
