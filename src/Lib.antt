-- ===== src/Lib.antt =====
-- A verification library for lm-resizer, which makes the tool outputs and prompts of language-model
-- agents smaller. The library follows the core crate, crates/lm-resizer-core/src.
--
-- How the parts interact. A request is judged by its headers (auth_mode.rs), which choose a policy
-- (compression_policy.rs). cache_control.rs finds the first message that may be changed at all, and
-- transforms/safety.rs which messages belong together as a tool call and its answer. The text of a
-- message goes through transforms/tag_protector.rs, which hides workflow tags behind placeholders, and
-- through the pipeline of transforms/pipeline, which runs cheap reformats first and then offloads,
-- which put what they drop into the store of ccr/backends/in_memory.rs under a cache key. The diff
-- compressor of transforms/diff_compressor.rs is what one of these offloads runs, the search compressor
-- of transforms/search_compressor.rs another, which asks transforms/adaptive_sizer.rs how many matches
-- are enough, and the log compressor of transforms/log_compressor.rs a third, which asks it how many
-- lines are. transforms/diagnostic_gate.rs puts back failure lines that a compressed text has lost.
-- transforms/live_zone.rs is the entry for a whole request: it looks for the latest message of a user
-- that is not frozen, runs the compressors and the gate on its blocks, and splices what they give into
-- the bytes of the body.
--
-- Which file models which part, names as in the source unless said otherwise:
--   Ccr/InMemory: ccr/backends/in_memory.rs. `InMemoryCcrStore` is a record, every operation returns
--     it anew, and a clock reading is an argument (`get` takes two, one under each lock). `evict` is
--     the loop of `evict_until_under_capacity`, on the queue; `insert_entry` the `entry` match of
--     `put`. The map is a parameter, Ccr/ShardMap, with the documented laws of DashMap, and an
--     association list meets them.
--   CacheControl: cache_control.rs. The fields that a warning was logged for are part of the result.
--   Safety: transforms/safety.rs. Both take JSON values through Json, the accessors of serde_json.
--   Tags: transforms/tag_protector.rs, on the bytes of a text: Html the table of standard tags, Parse
--     `parse_tag_at`, Spans `identify_spans`, Protect the rest. `walk` takes fuel, one more than the
--     text is long, and each round moves on by a byte at least. `attributes` reads one byte a call and
--     keeps the quote that it is in.
--   Pipeline: transforms/pipeline/traits.rs and orchestrator.rs. A transform is a record of functions,
--     the store a state of any type; `f32` and `f64` are types with the tests that are made of them.
--     Pipeline/Builder is `CompressionPipelineBuilder`.
--   Diff: transforms/diff_compressor.rs. Patterns are its regular expressions as tests of a line, Parse
--     `parse_diff` (`file_line` is the part of the loop that runs inside a section), Select
--     `select_hunks`, Context `reduce_context`, Compress `format_output` and `compress_with_store`.
--     The digits that `\d` knows, the scores of hunks, the digest and the store are parameters.
--   Gate: transforms/diagnostic_gate.rs. `next_run` is what the two nested loops of `lost_failure_lines`
--     do with one line, and `kept_lines` the lines that they mark; the regular expressions and the
--     trimming of whitespace are parameters.
--   Sizer: transforms/adaptive_sizer.rs. The votes of a bit are the steps up and the steps down; `F` is
--     `f64`, with the operations that the code uses.
--   Search: transforms/search_compressor.rs. Parse is `parse_match_line`, whose loop is `scan`, and
--     `parse_search_results`; Select is `select_matches`, Compress the scores, `format_output` and
--     `compress_with_store`. The set `seen` is read off the matches picked so far.
--   Log: transforms/log_compressor.rs. Patterns are the classifiers of a line, Lines `parse_lines`, whose
--     state machine for stack traces is `step_trace`; Select is `select_lines`, where a `BTreeSet` of
--     lines is a list that Base/TreeSet keeps ordered by line number, and Compress the output and the
--     key. The automata and regular expressions are parameters, and so are the `f32` scores.
--   LiveZone: transforms/live_zone.rs. Plan is `plan_block_replacements` (a `RawValue` is a piece of the
--     body with its place, and `bytes_offset_of` compares places), Dispatch `compress_one_block`, Splice
--     `apply_replacements`, where a slice out of range is `none`, Manifest what is read off a manifest,
--     Query `relevance_query_from_message`, Run `compress_anthropic_live_zone_with_ccr`, and OpenAi
--     `compress_openai_chat_live_zone`, which shares the end of it. Compressors
--     gives the dispatch the modelled log, search and diff compressors.
--   AuthMode: auth_mode.rs and the table of compression_policy.rs; the header map of the crate `http`
--     is a parameter.
--   Base: numbers, lists, texts, decimal digits, sorting, the ordered map and set of Rust, and the search for a
--     text in a text. Tests: runs.
--
-- Numbers are natural numbers; the counters of statistics do not wrap. The generation counter of the
-- store wraps at 64 bits, and saved bytes saturate there.
--
-- Not modelled: the interleaving of threads in the store, log lines, the loading of configurations,
-- and the floating-point formulas of the policy; the sidecar statistics of the diff
-- compressor, the JSON crusher, and the Responses route of the live zone; what stands on tree-sitter, regular expressions, tokenizers,
-- databases or the network.
pub mod Base
pub mod Ccr
pub mod Json
pub mod CacheControl
pub mod Safety
pub mod Tags
pub mod Pipeline
pub mod AuthMode
pub mod Diff
pub mod Gate
pub mod Sizer
pub mod Log
pub mod LiveZone
pub mod Search
pub mod Tests
