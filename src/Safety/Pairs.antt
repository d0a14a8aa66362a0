-- ===== src/Safety/Pairs.antt =====
-- The pairs that transforms/safety.rs lists, by what a conversation says.
pub mod Listed
pub mod Calls
pub mod Exact
