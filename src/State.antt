-- ===== src/State.antt =====
-- crates/execution/flashblocks/src/state.rs: the receiving side, which feeds the processor's queue
-- and holds the builder's fee.
pub mod Receiver
pub mod Node
pub mod Gate
mod Tests
