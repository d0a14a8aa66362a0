-- ===== src/Pipeline/Steps.antt =====
-- crates/lm-resizer-core/src/transforms/pipeline/orchestrator.rs: the order of `steps_applied`, and
-- the cache keys beside it.
use lm_resizer.Pipeline.{
  ContentType, Result, ReformatOutput, OffloadOutput, CompressionContext, ReformatTransform,
  OffloadTransform, Floats, OrchestratorConfig, CompressionPipeline, PipelineResult,
  ReformatAccumulator, take_reformat, take_offload, no_result, start, reformat_loop, run_reformats,
  should_offload, offload_loop, run_phases, run, ok, err,
}
use lm_resizer.Base.{
  append_nil, append_step, ℕ, ◌+◌, ◌≡◌, List, [], ◌∷◌, ◌++◌, map, length, length-append, Bytes,
  Bool-cases, arith, max, ◌==◌, inl, inr, sym, String, refl, ap, ◌∙◌, ◌⊎◌, ℕ, suc, subst,
}

-- The first list is the second less some of its elements.
pub data IsSublist : List String → List String → Type 0 where
  done : IsSublist [] []
  keep : (x : String) {xs ys : List String} → IsSublist xs ys → IsSublist (x ∷ xs) (x ∷ ys)
  skip : (x : String) {xs ys : List String} → IsSublist xs ys → IsSublist xs (x ∷ ys)

none_of : (ys : List String) → IsSublist [] ys
none_of [] = done
none_of (y ∷ ys) = skip y (none_of ys)

plus_zero : (n : ℕ) → 0 + n ≡ n
plus_zero n = omega arith

-- The steps in `after` are those in `before` and then some of `names`, in their order.
abbrev Adds : List String → List String → List String → Type 0
Adds names before after = (new : List String) × (after ≡ before ++ new) × IsSublist new names

Adds-skip :
    (x : String) (names before : List String) {after : List String}
    → Adds names before after
    → Adds (x ∷ names) before after
Adds-skip x names before (new, e, sub) = (new, e, skip x sub)

Adds-keep :
    (x : String) (names before : List String) {after : List String}
    → Adds names (before ++ x ∷ []) after
    → Adds (x ∷ names) before after
Adds-keep x names before (new, e, sub) = (x ∷ new, e ∙ append_step before x new, keep x sub)

Adds-none : (names before : List String) → Adds names before before
Adds-none names before = ([], sym (append_nil before), none_of names)

take_reformat-steps :
    (name : String) (acc : ReformatAccumulator) (answer : Result ReformatOutput)
    → ((take_reformat name acc answer).steps ≡ acc.steps)
      ⊎ ((take_reformat name acc answer).steps ≡ acc.steps ++ name ∷ [])
unfolding take_reformat
take_reformat-steps name acc (err e) = inl refl
take_reformat-steps name acc (ok out) = elim (Bool-cases (out.bytes_saved == 0)) [
  | inl e ↦ rw (e) (inl refl)
  | inr e ↦ rw (e) (inr refl)
]

module _ {R F : Type 0} (fl : Floats R F) where
  reformat_loop-steps :
      (target : R) (len : ℕ) (acc : ReformatAccumulator) (ts : List ReformatTransform)
      → Adds (map (λ t. t.name) ts) acc.steps (reformat_loop fl target len acc ts).steps
  unfolding reformat_loop
  reformat_loop-steps target len acc [] = Adds-none [] acc.steps
  reformat_loop-steps target len acc (t ∷ ts) =
      elim (Bool-cases (fl.ratio_le (fl.ratio (length acc.output) (max len 1)) target)) [
        | inl e ↦ rw (e, reformat_loop) (Adds-none (t.name ∷ map (λ t. t.name) ts) acc.steps)
        | inr e ↦
            rw (e, reformat_loop)
              (let acc' = take_reformat t.name acc (t.apply acc.output) in
                let rest = reformat_loop-steps target len acc' ts in
                elim (take_reformat-steps t.name acc (t.apply acc.output)) [
                  | inl same ↦ Adds-skip t.name (map (λ t. t.name) ts) acc.steps (
                      subst
                        (λ b.
                          Adds (map (λ t. t.name) ts) b (reformat_loop fl target len acc' ts).steps)
                        same rest)
                  | inr more ↦ Adds-keep t.name (map (λ t. t.name) ts) acc.steps (
                      subst
                        (λ b.
                          Adds (map (λ t. t.name) ts) b (reformat_loop fl target len acc' ts).steps)
                        more rest)
                ])
      ]

  take_offload-steps :
      (name : String) (acc : PipelineResult) (answer : Result OffloadOutput)
      → (take_offload name acc answer ≡ acc)
        ⊎ ((take_offload name acc answer).steps_applied ≡ acc.steps_applied ++ name ∷ [])
          × (length (take_offload name acc answer).cache_keys ≡ suc (length acc.cache_keys))
  unfolding take_offload
  take_offload-steps name acc (err e) = inl refl
  take_offload-steps name acc (ok out) = elim (Bool-cases (out.bytes_saved == 0)) [
    | inl e ↦ rw (e) (inl refl)
    | inr e ↦ rw (e) (inr (refl, length-append acc.cache_keys (out.cache_key ∷ []) ∙ omega arith))
  ]

  -- The steps in the second result are those in the first and then some of `names`, in their order,
  -- with one more cache key for each.
  abbrev AddsKeyed : List String → PipelineResult → PipelineResult → Type 0
  AddsKeyed names before after =
      (new : List String) × (after.steps_applied ≡ before.steps_applied ++ new)
      × (length after.cache_keys ≡ length before.cache_keys + length new)
      × IsSublist new names

  AddsKeyed-none : (names : List String) (before : PipelineResult) → AddsKeyed names before before
  AddsKeyed-none names before =
      ([], sym (append_nil before.steps_applied), omega arith, none_of names)

  AddsKeyed-step :
      (name : String) (names : List String) (before middle after : PipelineResult)
      → (middle ≡ before)
        ⊎ (middle.steps_applied ≡ before.steps_applied ++ name ∷ [])
          × (length middle.cache_keys ≡ suc (length before.cache_keys))
      → AddsKeyed names middle after
      → AddsKeyed (name ∷ names) before after
  AddsKeyed-step name names before middle after (inl same) (new, e, n, sub) = (
    new,
    e ∙ ap (λ m. m.steps_applied ++ new) same,
    n ∙ ap (λ m. length m.cache_keys + length new) same,
    skip name sub,
  )
  AddsKeyed-step name names before middle after (inr (more, keys)) (new, e, n, sub) = (
    name ∷ new,
    e ∙ ap (λ s. s ++ new) more ∙ append_step before.steps_applied name new,
    omega (arith, n, keys),
    keep name sub,
  )

  module _ {S : Type 0} where
    offload_loop-steps :
        (config : OrchestratorConfig R F) (ratio : R) (ctx : CompressionContext)
        (acc : PipelineResult) (store : S) (os : List (OffloadTransform F S)) (scores : List F)
        → AddsKeyed
            (map (λ o. o.name) os)
            acc
            (offload_loop fl config ratio ctx acc store os scores).0
    unfolding offload_loop
    offload_loop-steps config ratio ctx acc store [] scores = AddsKeyed-none [] acc
    offload_loop-steps config ratio ctx acc store (o ∷ os) [] =
        AddsKeyed-none (o.name ∷ map (λ x. x.name) os) acc
    offload_loop-steps config ratio ctx acc store (o ∷ os) (score ∷ scores) =
        elim (Bool-cases (should_offload fl config ratio score)) [
          | inl e ↦
              rw (e, offload_loop)
                (AddsKeyed-step o.name (map (λ x. x.name) os) acc
                  (take_offload o.name acc (o.apply acc.output ctx store).0)
                  (offload_loop fl config ratio ctx
                    (take_offload o.name acc (o.apply acc.output ctx store).0)
                    (o.apply acc.output ctx store).1 os scores).0
                  (take_offload-steps o.name acc (o.apply acc.output ctx store).0)
                  (offload_loop-steps config ratio ctx
                    (take_offload o.name acc (o.apply acc.output ctx store).0)
                    (o.apply acc.output ctx store).1 os scores))
          | inr e ↦
              rw (e, offload_loop)
                (AddsKeyed-step o.name (map (λ x. x.name) os) acc acc
                  (offload_loop fl config ratio ctx acc store os scores).0 (inl refl)
                  (offload_loop-steps config ratio ctx acc store os scores))
        ]

    -- The steps that `run` reports are names of reformats registered for the content type, in the
    -- order of their registration, and then names of its offloads, in that order too, with exactly
    -- as many cache keys as there are offloads among them.
    pub run-steps :
        (p : CompressionPipeline R F S) (content : Bytes) (content_type : ContentType)
        (ctx : CompressionContext) (store : S)
        → (reformatted offloaded : List String) × ((run fl p content content_type ctx
              store).0.steps_applied
            ≡ reformatted ++ offloaded)
          × (length (run fl p content content_type ctx store).0.cache_keys ≡ length offloaded)
          × IsSublist reformatted (map (λ t. t.name) (p.reformats_by_type content_type))
          × IsSublist offloaded (map (λ o. o.name) (p.offloads_by_type content_type))
    unfolding run run_phases run_reformats start no_result
    run-steps p content content_type ctx store = elim (Bool-cases (length content == 0)) [
      | inl e ↦
          rw (e, run)
            (
              [],
              [],
              refl,
              refl,
              none_of (map (λ t. t.name) (p.reformats_by_type content_type)),
              none_of (map (λ o. o.name) (p.offloads_by_type content_type)),
            )
      | inr e ↦
          rw (e, run)
            (let rs =
                reformat_loop-steps p.config.pipeline.reformat_target_ratio (length content) _
                  (p.reformats_by_type content_type) in
              let os =
                offload_loop-steps p.config.pipeline _ ctx _ store (p.offloads_by_type content_type)
                  _ in
              (
                rs.0,
                os.0,
                os.1 ∙ ap (λ s. s ++ os.0) rs.1,
                os.2 ∙ plus_zero (length os.0),
                rs.2,
                os.3,
              ))
    ]
