-- ===== src/Pipeline/Savings.antt =====
-- crates/lm-resizer-core/src/transforms/pipeline/orchestrator.rs: the bytes that `run` counts as
-- saved. The contract of the transforms is what `ReformatOutput::from_lengths` and
-- `OffloadOutput::from_lengths` of traits.rs compute, which every transform builds its answer by.
use lm_resizer.Pipeline.{
  ContentType, Result, ReformatOutput, OffloadOutput, CompressionContext, reformat_from_lengths,
  offload_from_lengths, ReformatTransform, OffloadTransform, Floats, OrchestratorConfig,
  CompressionPipeline, PipelineResult, ReformatAccumulator, take_reformat, take_offload, no_result,
  start, reformat_loop, run_reformats, should_offload, offload_loop, run_phases, run, ok, err,
}
use lm_resizer.Base.{
  ℕ, ◌+◌, ◌^◌, ◌<◌, ◌≡◌, List, [], ◌∷◌, length, Bytes, All, Bool-cases, arith, max, ◌==◌, ==_iff,
  inl, inr, String,
}

-- The answer to an input of that length counts the bytes between the two lengths.
unfoldable pub CountsReformat : ℕ → Result ReformatOutput → Type 0
CountsReformat n (ok out) = out.bytes_saved ≡ (reformat_from_lengths n out.output).bytes_saved
CountsReformat n (err e) = Unit

unfoldable pub CountsOffload : ℕ → Result OffloadOutput → Type 0
CountsOffload n (ok out) =
    out.bytes_saved ≡ (offload_from_lengths n out.output out.cache_key).bytes_saved
CountsOffload n (err e) = Unit

abbrev pub HonestReformat : ReformatTransform → Type 0
HonestReformat t = (content : Bytes) → CountsReformat (length content) (t.apply content)

abbrev pub HonestOffload : {F S : Type 0} → OffloadTransform F S → Type 0
HonestOffload o =
    (content : Bytes) (ctx : CompressionContext) (store : _)
    → CountsOffload (length content) ((o.apply content ctx store).0)

abbrev AccTally : ℕ → ReformatAccumulator → Type 0
AccTally n acc = acc.bytes_saved + length acc.output ≡ n

abbrev ResultTally : ℕ → PipelineResult → Type 0
ResultTally n acc = acc.bytes_saved + length acc.output ≡ n

take_reformat-Tally :
    (n : ℕ) (name : String) (acc : ReformatAccumulator) (answer : Result ReformatOutput)
    → n < 2 ^ 64
    → CountsReformat (length acc.output) answer
    → AccTally n acc
    → AccTally n (take_reformat name acc answer)
unfolding take_reformat CountsReformat
take_reformat-Tally n name acc (err e) small honest h = h
take_reformat-Tally n name acc (ok out) small honest h = elim (Bool-cases (out.bytes_saved == 0)) [
  | inl e ↦ rw (e) h
  | inr e ↦ rw (e) (ground (arith, h, honest, small, e))
]

take_offload-Tally :
    (n : ℕ) (name : String) (acc : PipelineResult) (answer : Result OffloadOutput)
    → n < 2 ^ 64
    → CountsOffload (length acc.output) answer
    → ResultTally n acc
    → ResultTally n (take_offload name acc answer)
unfolding take_offload CountsOffload
take_offload-Tally n name acc (err e) small honest h = h
take_offload-Tally n name acc (ok out) small honest h = elim (Bool-cases (out.bytes_saved == 0)) [
  | inl e ↦ rw (e) h
  | inr e ↦ rw (e) (ground (arith, h, honest, small, e))
]

module _ {R F : Type 0} (fl : Floats R F) where
  reformat_loop-Tally :
      (n : ℕ) (target : R) (len : ℕ) (acc : ReformatAccumulator) (ts : List ReformatTransform)
      → n < 2 ^ 64
      → All HonestReformat ts
      → AccTally n acc
      → AccTally n (reformat_loop fl target len acc ts)
  unfolding reformat_loop
  reformat_loop-Tally n target len acc [] small honest h = h
  reformat_loop-Tally n target len acc (t ∷ ts) small (honest_t, honest) h =
      elim (Bool-cases (fl.ratio_le (fl.ratio (length acc.output) (max len 1)) target)) [
        | inl e ↦ rw (e, reformat_loop) h
        | inr e ↦
            rw (e, reformat_loop)
              (reformat_loop-Tally n target len (take_reformat t.name acc (t.apply acc.output)) ts
                small honest
                (take_reformat-Tally n t.name acc (t.apply acc.output) small (honest_t acc.output)
                  h))
      ]

  module _ {S : Type 0} where
    offload_loop-Tally :
        (n : ℕ) (config : OrchestratorConfig R F) (ratio : R) (ctx : CompressionContext)
        (acc : PipelineResult) (store : S) (os : List (OffloadTransform F S)) (scores : List F)
        → n < 2 ^ 64
        → All HonestOffload os
        → ResultTally n acc
        → ResultTally n (offload_loop fl config ratio ctx acc store os scores).0
    unfolding offload_loop
    offload_loop-Tally n config ratio ctx acc store [] scores small honest h = h
    offload_loop-Tally n config ratio ctx acc store (o ∷ os) [] small honest h = h
    offload_loop-Tally n config ratio ctx acc store (o ∷ os) (score ∷ scores) small
          (honest_o, honest) h =
        elim (Bool-cases (should_offload fl config ratio score)) [
          | inl e ↦
              rw (e, offload_loop)
                (offload_loop-Tally n config ratio ctx
                  (take_offload o.name acc ((o.apply acc.output ctx store).0))
                  ((o.apply acc.output ctx store).1) os scores small honest
                  (take_offload-Tally n o.name acc ((o.apply acc.output ctx store).0) small
                    (honest_o acc.output ctx store) h))
          | inr e ↦
              rw (e, offload_loop)
                (offload_loop-Tally n config ratio ctx acc store os scores small honest h)
        ]

    -- When every transform registered for the content type counts its savings by `from_lengths`, and
    -- the length of the content fits a 64-bit `usize`, the bytes that `run` reports as saved and the
    -- length of its output add up to the length of the content, so that its output is never longer.
    pub run-Tally :
        (p : CompressionPipeline R F S) (content : Bytes) (content_type : ContentType)
        (ctx : CompressionContext) (store : S)
        → length content < 2 ^ 64
        → All HonestReformat (p.reformats_by_type content_type)
        → All HonestOffload (p.offloads_by_type content_type)
        → (run fl p content content_type ctx store).0.bytes_saved
            + length (run fl p content content_type ctx store).0.output
          ≡ length content
    unfolding run run_phases run_reformats start no_result
    run-Tally p content content_type ctx store small honest_r honest_o =
        elim (Bool-cases (length content == 0)) [
          | inl e ↦ rw (e, run) (omega (arith, (==_iff (length content) 0).0 e))
          | inr e ↦
              rw (e, run)
                (offload_loop-Tally (length content) _ _ ctx _ store
                  (p.offloads_by_type content_type) _ small honest_o
                  (reformat_loop-Tally (length content) p.config.pipeline.reformat_target_ratio
                    (length content) _ (p.reformats_by_type content_type) small honest_r
                    (omega arith)))
        ]
