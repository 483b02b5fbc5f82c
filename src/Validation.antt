-- ===== src/Validation.antt =====
-- crates/execution/flashblocks/src/validation.rs: the stateless rules for the order of flashblocks
-- and for reconciling pending state with the canonical chain.
pub mod Sequence
pub mod Reorg
pub mod Oracle
pub mod Reconcile
mod Tests
