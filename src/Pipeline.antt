-- ===== src/Pipeline.antt =====
-- crates/lm-resizer-core/src/transforms/pipeline (traits.rs, orchestrator.rs): reformats run while
-- they pay, then offloads whose bloat score calls for them. A content is its list of bytes, and
-- the store behind `dyn CcrStore` a state of any type that the offloads thread. Trace and warning
-- lines are left out; the two phases that `rayon::join` runs side by side read the same content
-- and share no state, so they are run one after the other.
pub mod Savings
pub mod Refusals
pub mod Steps
pub mod Keys
pub mod Builder
use lm_resizer.Base.{
  ℕ, ◌+◌, ◌-◌, ◌^◌, max, min, String, Bool, true, false, ◌&&◌, ◌||◌, not, Option, none, some, List,
  [], ◌∷◌, ◌++◌, map, length, Bytes, ◌==◌, if◌then◌else◌,
}

pub data ContentType : Type 0 where
  json_array source_code search_results build_output git_diff html plain_text : ContentType

pub data TransformError : Type 0 where
  invalid_input skipped internal : String → String → TransformError

pub data Result {ℓ} (A : Type ℓ) : Type ℓ where
  ok : A → Result A
  err : TransformError → Result A

pub record ReformatOutput : Type 0 where
  pub output : Bytes
  pub bytes_saved : ℕ

pub record OffloadOutput : Type 0 where
  pub output : Bytes
  pub bytes_saved : ℕ
  pub cache_key : String

pub record CompressionContext : Type 0 where
  pub query : Bytes
  pub token_budget : Option ℕ

-- `input_len.saturating_sub(output.len())`, of both `from_lengths`.
abbrev pub saved : ℕ → Bytes → ℕ
saved input_len output = input_len - length output

-- `ReformatOutput::from_lengths` and `OffloadOutput::from_lengths`.
abbrev pub reformat_from_lengths : ℕ → Bytes → ReformatOutput
reformat_from_lengths input_len output = record {
  output = output;
  bytes_saved = saved input_len output;
}

abbrev pub offload_from_lengths : ℕ → Bytes → String → OffloadOutput
offload_from_lengths input_len output cache_key = record {
  output = output;
  bytes_saved = saved input_len output;
  cache_key = cache_key;
}

pub record ReformatTransform : Type 0 where
  pub name : String
  pub applies_to : List ContentType
  pub apply : Bytes → Result ReformatOutput

-- `F` holds the `f32` scores, and `S` the states of the store.
pub record OffloadTransform (F S : Type 0) : Type 0 where
  pub name : String
  pub applies_to : List ContentType
  pub estimate_bloat : Bytes → F
  pub apply : Bytes → CompressionContext → S → Result OffloadOutput × S
  pub confidence : F

-- Floating-point numbers are not in the language of the model: the two widths are types with the
-- tests that the code makes of them, `R` for `f64` ratios and `F` for `f32` scores.
pub record Floats (R F : Type 0) : Type 0 where
  pub ratio : ℕ → ℕ → R
  pub ratio_le : R → R → Bool
  pub ratio_gt : R → R → Bool
  pub score_ge : F → F → Bool
  pub score_positive : F → Bool

pub record OrchestratorConfig (R F : Type 0) : Type 0 where
  pub reformat_target_ratio : R
  pub bloat_threshold : F
  pub offload_fallback_ratio : R

-- The tables of `PipelineConfig` that set up single transforms are read by their constructors only.
pub record PipelineConfig (R F : Type 0) : Type 0 where
  pub pipeline : OrchestratorConfig R F

-- A `HashMap` from content types to lists, with the empty list for a key that is absent.
pub record CompressionPipeline (R F S : Type 0) : Type 0 where
  pub reformats_by_type : ContentType → List ReformatTransform
  pub offloads_by_type : ContentType → List (OffloadTransform F S)
  pub config : PipelineConfig R F

pub record PipelineResult : Type 0 where
  pub output : Bytes
  pub bytes_saved : ℕ
  pub steps_applied : List String
  pub cache_keys : List String

pub record ReformatAccumulator : Type 0 where
  pub output : Bytes
  pub bytes_saved : ℕ
  pub steps : List String

-- `a.saturating_add(b)` on a 64-bit `usize`.
abbrev pub saturating_add : ℕ → ℕ → ℕ
saturating_add a b = min (a + b) (2 ^ 64 - 1)

-- What the loop of `run_reformats` does with the answer of a transform.
unfoldable pub take_reformat :
    String → ReformatAccumulator → Result ReformatOutput → ReformatAccumulator
take_reformat name acc (ok out) = if out.bytes_saved == 0 then acc else record {
  output = out.output;
  bytes_saved = saturating_add acc.bytes_saved out.bytes_saved;
  steps = acc.steps ++ name ∷ [];
}
take_reformat name acc (err e) = acc

-- What the loop of `run` does with the answer of an offload.
unfoldable pub take_offload : String → PipelineResult → Result OffloadOutput → PipelineResult
take_offload name acc (ok out) = if out.bytes_saved == 0 then acc else record {
  output = out.output;
  bytes_saved = saturating_add acc.bytes_saved out.bytes_saved;
  steps_applied = acc.steps_applied ++ name ∷ [];
  cache_keys = acc.cache_keys ++ out.cache_key ∷ [];
}
take_offload name acc (err e) = acc

-- `PipelineResult` with an empty output and `..Default::default()`.
unfoldable pub no_result : PipelineResult
no_result = record { output = []; bytes_saved = 0; steps_applied = []; cache_keys = [] }

-- The variables of `run` when the loop over the offloads begins.
unfoldable pub start : ReformatAccumulator → PipelineResult
start acc = record {
  output = acc.output;
  bytes_saved = acc.bytes_saved;
  steps_applied = acc.steps;
  cache_keys = [];
}

unfoldable pub estimate_bloats : {F S : Type 0} → Bytes → List (OffloadTransform F S) → List F
estimate_bloats content = map (λ o. o.estimate_bloat content)

module _ {R F : Type 0} (fl : Floats R F) where
  -- The loop of `run_reformats`; it breaks when the target is reached.
  unfoldable pub reformat_loop :
      R → ℕ → ReformatAccumulator → List ReformatTransform → ReformatAccumulator
  reformat_loop target original_len acc [] = acc
  reformat_loop target original_len acc (t ∷ ts) =
      let rest =
        reformat_loop target original_len (take_reformat t.name acc (t.apply acc.output)) ts in
      if fl.ratio_le (fl.ratio (length acc.output) (max original_len 1)) target then acc else rest

  unfoldable pub run_reformats :
      OrchestratorConfig R F → Bytes → List ReformatTransform → ReformatAccumulator
  run_reformats config content =
      reformat_loop config.reformat_target_ratio (length content)
        (record { output = content; bytes_saved = 0; steps = [] })

  -- Whether an offload of the given score runs.
  unfoldable pub should_offload : OrchestratorConfig R F → R → F → Bool
  should_offload config reformat_ratio score =
      fl.score_ge score config.bloat_threshold
      || (fl.ratio_gt reformat_ratio config.offload_fallback_ratio && fl.score_positive score)

  module _ {S : Type 0} where
    -- The loop over `offloads.iter().zip(bloat_scores.iter())`.
    unfoldable pub offload_loop :
        OrchestratorConfig R F
        → R
        → CompressionContext
        → PipelineResult
        → S
        → List (OffloadTransform F S)
        → List F
        → PipelineResult × S
    offload_loop config reformat_ratio ctx acc store [] scores = (acc, store)
    offload_loop config reformat_ratio ctx acc store (o ∷ os) [] = (acc, store)
    offload_loop config reformat_ratio ctx acc store (o ∷ os) (score ∷ scores) =
        elim (should_offload config reformat_ratio score) [
          | false ↦ offload_loop config reformat_ratio ctx acc store os scores
          | true ↦
              let (answer, store') = o.apply acc.output ctx store in
              offload_loop config reformat_ratio ctx (take_offload o.name acc answer) store' os
                scores
        ]

    -- The body of `run` after its test for an empty content.
    unfoldable pub run_phases :
        CompressionPipeline R F S
        → Bytes
        → ContentType
        → CompressionContext
        → S
        → PipelineResult × S
    run_phases p content content_type ctx store =
        let reformats = p.reformats_by_type content_type in
        let offloads = p.offloads_by_type content_type in
        let reformat_acc = run_reformats p.config.pipeline content reformats in
        let bloat_scores = estimate_bloats content offloads in
        offload_loop p.config.pipeline (fl.ratio (length reformat_acc.output) (length content)) ctx
          (start reformat_acc) store offloads bloat_scores

    unfoldable pub run :
        CompressionPipeline R F S
        → Bytes
        → ContentType
        → CompressionContext
        → S
        → PipelineResult × S
    run p content content_type ctx store =
        if length content == 0
        then (no_result, store)
        else run_phases p content content_type ctx store
