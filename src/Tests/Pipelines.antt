-- ===== src/Tests/Pipelines.antt =====
-- A small pipeline over crates/lm-resizer-core/src/transforms/pipeline: a reformat that drops a
-- byte, and an offload that stores the content and leaves its first byte.
use lm_resizer.Pipeline.{
  CompressionContext, reformat_from_lengths, offload_from_lengths, ReformatTransform,
  OffloadTransform, Floats, PipelineConfig, CompressionPipeline, take_reformat, take_offload, start,
  estimate_bloats, reformat_loop, run_reformats, should_offload, offload_loop, run_phases, run,
  html, plain_text, invalid_input, ok, err,
}
use lm_resizer.Base.{
  ℕ, ◌*◌, ◌+◌, All, String, ◌≡◌, refl, none, List, [], ◌∷◌, ◌++◌, map, length, take, drop, Bytes,
  codes, leb, ltb, In, inl, inr, arith,
}
use lm_resizer.Pipeline.Savings.{CountsReformat, CountsOffload, run-Tally}
use lm_resizer.Pipeline.Keys.{Returned, run-Resolves}
use lm_resizer.Pipeline.Steps.{IsSublist, run-steps}
use lm_resizer.Pipeline.Refusals.{DeclinesReformat, DeclinesOffload, run-Declines}
use lm_resizer.Pipeline.Builder.{
  BuilderCall, reformat_call, offload_call, config_call, builder, build, applicable, call_all,
  reformats_of, offloads_of, last_config, build_lem,
}

-- Ratios as pairs, and scores as percentages.
abbrev fractions : Floats (ℕ × ℕ) ℕ
fractions = record {
  ratio = λ a b. (a, b);
  ratio_le = λ x y. leb (x.0 * y.1) (y.0 * x.1);
  ratio_gt = λ x y. ltb (y.0 * x.1) (x.0 * y.1);
  score_ge = λ a b. leb b a;
  score_positive = λ a. ltb 0 a;
}

abbrev Store : Type 0
Store = List (String × Bytes)

abbrev drop_byte : ReformatTransform
drop_byte = record {
  name = "drop_byte";
  applies_to = plain_text ∷ html ∷ [];
  apply = λ c. ok (reformat_from_lengths (length c) (drop 1 c));
}

abbrev stash : OffloadTransform ℕ Store
stash = record {
  name = "stash";
  applies_to = plain_text ∷ [];
  estimate_bloat = λ c. length c;
  apply = λ c ctx store. (ok (offload_from_lengths (length c) (take 1 c) "k1"), ("k1", c) ∷ store);
  confidence = 90;
}

abbrev unable : ReformatTransform
unable = record {
  name = "unable";
  applies_to = plain_text ∷ [];
  apply = λ c. err (invalid_input "unable" "not a table");
}

abbrev idle : OffloadTransform ℕ Store
idle = record {
  name = "idle";
  applies_to = plain_text ∷ [];
  estimate_bloat = λ c. 100;
  apply = λ c ctx store. (ok (offload_from_lengths (length c) c "k2"), store);
  confidence = 10;
}

abbrev settings : PipelineConfig (ℕ × ℕ) ℕ
settings = record {
  pipeline = record {
    reformat_target_ratio = (1, 2);
    bloat_threshold = 3;
    offload_fallback_ratio = (9, 10);
  };
}

abbrev loose : PipelineConfig (ℕ × ℕ) ℕ
loose = record {
  pipeline = record {
    reformat_target_ratio = (1, 2);
    bloat_threshold = 5;
    offload_fallback_ratio = (9, 10);
  };
}

abbrev ctx : CompressionContext
ctx = record { query = []; token_budget = none }

abbrev small : CompressionPipeline (ℕ × ℕ) ℕ Store
small = record {
  reformats_by_type = λ t. drop_byte ∷ [];
  offloads_by_type = λ t. stash ∷ [];
  config = settings;
}

abbrev idling : CompressionPipeline (ℕ × ℕ) ℕ Store
idling = record {
  reformats_by_type = λ t. unable ∷ [];
  offloads_by_type = λ t. idle ∷ [];
  config = settings;
}

small_output : run fractions small (codes "abcdef") plain_text ctx [] ≡ (
  record {
    output = codes "b";
    bytes_saved = 5;
    steps_applied = "drop_byte" ∷ "stash" ∷ [];
    cache_keys = "k1" ∷ [];
  },
  ("k1", codes "bcdef") ∷ [],
)
unfolding run run_phases run_reformats reformat_loop take_reformat estimate_bloats start
    should_offload offload_loop take_offload
small_output = refl

idling_output : (run fractions idling (codes "abc") plain_text ctx []).0.output ≡ codes "abc"
unfolding run run_phases run_reformats reformat_loop take_reformat estimate_bloats start
    should_offload offload_loop take_offload
idling_output = refl

run-Tally_example :
    (run fractions small (codes "abcdef") plain_text ctx []).0.bytes_saved
      + length (run fractions small (codes "abcdef") plain_text ctx []).0.output
    ≡ 6
unfolding CountsReformat CountsOffload
run-Tally_example =
    run-Tally fractions small (codes "abcdef") plain_text ctx [] (omega arith) (λ c. refl, tt)
      (λ c x store. refl, tt)

abbrev Stored : String → Store → Type 0
Stored key store = In key (map (λ entry. entry.0) store)

run-Resolves_example :
    All
      (λ key. Stored key (run fractions small (codes "abcdef") plain_text ctx []).1)
      (run fractions small (codes "abcdef") plain_text ctx []).0.cache_keys
unfolding Returned
run-Resolves_example =
    run-Resolves Stored fractions small (codes "abcdef") plain_text ctx []
      (λ c x store. (inl refl, λ key h. inr h), tt)

run-steps_example :
    (reformatted offloaded : List String) × ((run fractions small
        (codes "abcdef")
        plain_text
        ctx
        []).0.steps_applied
      ≡ reformatted ++ offloaded)
    × (length (run fractions small (codes "abcdef") plain_text ctx []).0.cache_keys
        ≡ length offloaded)
    × IsSublist reformatted ("drop_byte" ∷ [])
    × IsSublist offloaded ("stash" ∷ [])
run-steps_example = run-steps fractions small (codes "abcdef") plain_text ctx []

run-Declines_example :
    (run fractions idling (codes "abc") plain_text ctx []).0
    ≡ (record { output = codes "abc"; bytes_saved = 0; steps_applied = []; cache_keys = [] })
unfolding DeclinesReformat DeclinesOffload
run-Declines_example =
    run-Declines fractions idling (codes "abc") plain_text ctx [] (λ c. tt, tt)
      (λ c x store. omega arith, tt)

abbrev calls : List (BuilderCall (ℕ × ℕ) ℕ Store)
calls =
    reformat_call drop_byte
    ∷ offload_call stash
    ∷ config_call loose
    ∷ reformat_call unable
    ∷ config_call settings
    ∷ []

build_example :
    let p = build loose (call_all builder calls) in
    (p.reformats_by_type html ≡ applicable (λ t. t.applies_to) html (reformats_of calls))
    × (p.offloads_by_type html ≡ applicable (λ o. o.applies_to) html (offloads_of calls))
    × (p.config ≡ last_config loose calls)
build_example = build_lem loose calls html
