-- ===== src/Pipeline/Builder.antt =====
-- crates/lm-resizer-core/src/transforms/pipeline/orchestrator.rs: `CompressionPipelineBuilder`. A
-- transform is registered under each type that its `applies_to` lists; an absent key of the
-- `HashMap` is the empty list, which `entry(..).or_default()` and `get(..).unwrap_or(..)` both read.
use lm_resizer.Pipeline.{
  ContentType, ReformatTransform, OffloadTransform, PipelineConfig, CompressionPipeline, json_array,
  source_code, search_results, build_output, git_diff, html, plain_text,
}
use lm_resizer.Base.{
  append_assoc, append_nil, ◌≡◌, Bool, true, false, List, [], ◌∷◌, ◌++◌, Option, none, some,
  unwrap_or, if◌then◌else◌, refl, ◌∙◌, sym, Bool-cases, inl, inr,
}

unfoldable pub same_type : ContentType → ContentType → Bool
same_type json_array json_array = true
same_type source_code source_code = true
same_type search_results search_results = true
same_type build_output build_output = true
same_type git_diff git_diff = true
same_type html html = true
same_type plain_text plain_text = true
same_type a b = false

-- `map.entry(ct).or_default().push(t)`.
pub push_at : {T : Type 0} → (ContentType → List T) → ContentType → T → ContentType → List T
push_at by_type ct t q = if same_type ct q then by_type q ++ t ∷ [] else by_type q

-- The loop `for ct in types`.
pub register : {T : Type 0} → (ContentType → List T) → List ContentType → T → ContentType → List T
register by_type [] t = by_type
register by_type (ct ∷ types) t = register (push_at by_type ct t) types t

pub record CompressionPipelineBuilder (R F S : Type 0) : Type 0 where
  pub reformats_by_type : ContentType → List ReformatTransform
  pub offloads_by_type : ContentType → List (OffloadTransform F S)
  pub config : Option (PipelineConfig R F)

module _ {R F S : Type 0} where
  pub builder : CompressionPipelineBuilder R F S
  builder = record { reformats_by_type = λ ct. []; offloads_by_type = λ ct. []; config = none }

  pub with_reformat :
      CompressionPipelineBuilder R F S → ReformatTransform → CompressionPipelineBuilder R F S
  with_reformat b t = record {
    reformats_by_type = register b.reformats_by_type t.applies_to t;
    offloads_by_type = b.offloads_by_type;
    config = b.config;
  }

  pub with_offload :
      CompressionPipelineBuilder R F S → OffloadTransform F S → CompressionPipelineBuilder R F S
  with_offload b o = record {
    reformats_by_type = b.reformats_by_type;
    offloads_by_type = register b.offloads_by_type o.applies_to o;
    config = b.config;
  }

  pub with_config :
      CompressionPipelineBuilder R F S → PipelineConfig R F → CompressionPipelineBuilder R F S
  with_config b config = record {
    reformats_by_type = b.reformats_by_type;
    offloads_by_type = b.offloads_by_type;
    config = some config;
  }

  -- `default_config` is `PipelineConfig::default()`, which reads an embedded table.
  pub build : PipelineConfig R F → CompressionPipelineBuilder R F S → CompressionPipeline R F S
  build default_config b = record {
    reformats_by_type = b.reformats_by_type;
    offloads_by_type = b.offloads_by_type;
    config = unwrap_or b.config default_config;
  }

-- As many copies of `t` as the type is named in `types`.
unfoldable pub copies : {T : Type 0} → ContentType → List ContentType → T → List T
copies q [] t = []
copies q (ct ∷ types) t = let rest = copies q types t in if same_type ct q then t ∷ rest else rest

push_at-copies :
    {T : Type 0} (by_type : ContentType → List T) (ct : ContentType) (types : List ContentType)
    (t : T) (q : ContentType)
    → push_at by_type ct t q ++ copies q types t ≡ by_type q ++ copies q (ct ∷ types) t
unfolding push_at copies
push_at-copies by_type ct types t q = elim (Bool-cases (same_type ct q)) [
  | inl e ↦ rw (e, copies) (append_assoc (by_type q) (t ∷ []) (copies q types t))
  | inr e ↦ rw (e, copies) refl
]

register-copies :
    {T : Type 0} (by_type : ContentType → List T) (types : List ContentType) (t : T)
    (q : ContentType)
    → register by_type types t q ≡ by_type q ++ copies q types t
unfolding register copies
register-copies by_type [] t q = sym (append_nil (by_type q))
register-copies by_type (ct ∷ types) t q =
    register-copies (push_at by_type ct t) types t q ∙ push_at-copies by_type ct types t q

-- The elements in their order, each as often as its `applies_to` names the type.
unfoldable pub applicable : {T : Type 0} → (T → List ContentType) → ContentType → List T → List T
applicable applies_to q [] = []
applicable applies_to q (t ∷ ts) = copies q (applies_to t) t ++ applicable applies_to q ts

register-applicable :
    {T : Type 0} (applies_to : T → List ContentType) (by_type : ContentType → List T) (t : T)
    (ts : List T) (q : ContentType)
    → register by_type (applies_to t) t q ++ applicable applies_to q ts
      ≡ by_type q ++ applicable applies_to q (t ∷ ts)
unfolding applicable
register-applicable applies_to by_type t ts q =
    rw (register-copies by_type (applies_to t) t q)
      (append_assoc (by_type q) (copies q (applies_to t) t) (applicable applies_to q ts))

-- A call of the builder.
pub data BuilderCall (R F S : Type 0) : Type 0 where
  reformat_call : ReformatTransform → BuilderCall R F S
  offload_call : OffloadTransform F S → BuilderCall R F S
  config_call : PipelineConfig R F → BuilderCall R F S

module _ {R F S : Type 0} where
  abbrev pub call :
      CompressionPipelineBuilder R F S → BuilderCall R F S → CompressionPipelineBuilder R F S
  call b (reformat_call t) = with_reformat b t
  call b (offload_call o) = with_offload b o
  call b (config_call config) = with_config b config

  -- A chain of calls.
  unfoldable pub call_all :
      CompressionPipelineBuilder R F S → List (BuilderCall R F S) → CompressionPipelineBuilder R F S
  call_all b [] = b
  call_all b (c ∷ cs) = call_all (call b c) cs

  -- What the calls register, and the configuration of the last call that has one.
  unfoldable pub reformats_of : List (BuilderCall R F S) → List ReformatTransform
  reformats_of [] = []
  reformats_of (reformat_call t ∷ cs) = t ∷ reformats_of cs
  reformats_of (offload_call o ∷ cs) = reformats_of cs
  reformats_of (config_call config ∷ cs) = reformats_of cs

  unfoldable pub offloads_of : List (BuilderCall R F S) → List (OffloadTransform F S)
  offloads_of [] = []
  offloads_of (reformat_call t ∷ cs) = offloads_of cs
  offloads_of (offload_call o ∷ cs) = o ∷ offloads_of cs
  offloads_of (config_call config ∷ cs) = offloads_of cs

  unfoldable pub last_config : PipelineConfig R F → List (BuilderCall R F S) → PipelineConfig R F
  last_config given [] = given
  last_config given (reformat_call t ∷ cs) = last_config given cs
  last_config given (offload_call o ∷ cs) = last_config given cs
  last_config given (config_call config ∷ cs) = last_config config cs

  call_all-applicable :
      (default_config : PipelineConfig R F) (b : CompressionPipelineBuilder R F S)
      (cs : List (BuilderCall R F S)) (q : ContentType)
      → ((call_all b cs).reformats_by_type q
          ≡ b.reformats_by_type q ++ applicable (λ t. t.applies_to) q (reformats_of cs))
        × ((call_all b cs).offloads_by_type q
            ≡ b.offloads_by_type q ++ applicable (λ o. o.applies_to) q (offloads_of cs))
        × (unwrap_or (call_all b cs).config default_config
            ≡ last_config (unwrap_or b.config default_config) cs)
  unfolding call_all reformats_of offloads_of last_config with_reformat with_offload with_config
      applicable
  call_all-applicable default_config b [] q =
      (sym (append_nil (b.reformats_by_type q)), sym (append_nil (b.offloads_by_type q)), refl)
  call_all-applicable default_config b (reformat_call t ∷ cs) q =
      let rest = call_all-applicable default_config (with_reformat b t) cs q in
      (
        rest.0 ∙ register-applicable (λ x. x.applies_to) b.reformats_by_type t (reformats_of cs) q,
        rest.1,
        rest.2,
      )
  call_all-applicable default_config b (offload_call o ∷ cs) q =
      let rest = call_all-applicable default_config (with_offload b o) cs q in
      (
        rest.0,
        rest.1 ∙ register-applicable (λ x. x.applies_to) b.offloads_by_type o (offloads_of cs) q,
        rest.2,
      )
  call_all-applicable default_config b (config_call config ∷ cs) q =
      call_all-applicable default_config (with_config b config) cs q

  -- After any chain of `with_reformat`, `with_offload` and `with_config` calls, in any order, the built
  -- pipeline holds under each content type the registered reformats, and the registered offloads, that
  -- apply to it, in the order of registration, each as often as its `applies_to` names the type; and
  -- its configuration is that of the last `with_config` call, or the default where there was none.
  pub build_lem :
      (default_config : PipelineConfig R F) (calls : List (BuilderCall R F S)) (q : ContentType)
      → let p = build default_config (call_all builder calls) in
        (p.reformats_by_type q ≡ applicable (λ t. t.applies_to) q (reformats_of calls))
        × (p.offloads_by_type q ≡ applicable (λ o. o.applies_to) q (offloads_of calls))
        × (p.config ≡ last_config default_config calls)
  unfolding build builder
  build_lem default_config calls q = call_all-applicable default_config builder calls q
