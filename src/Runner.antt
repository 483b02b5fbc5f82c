-- ===== src/Runner.antt =====
-- crates/execution/runner/src and crates/execution/flashblocks-node/src/pending_state.rs: how the
-- node's `eth` API answers the `pending` tag from the published snapshot.
pub mod Provider
pub mod Layering
pub mod Overlay
pub mod Pending
pub mod Samples
mod Tests
