-- ===== src/Ccr.antt =====
-- crates/lm-resizer-core/src/ccr: the store that keeps what a lossy transform takes off the wire.
-- `ShardMap` is what the in-memory backend uses of the `dashmap` crate; `InMemory` is the backend.
pub mod ShardMap
pub mod InMemory
