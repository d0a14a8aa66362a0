-- ===== src/Tags.antt =====
-- crates/lm-resizer-core/src/transforms/tag_protector.rs: custom tags are taken out of a text
-- before it is compressed, and put back afterwards. A text is its list of bytes.
pub mod Html
pub mod Parse
pub mod Spans
pub mod Protect
