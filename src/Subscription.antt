-- ===== src/Subscription.antt =====
-- crates/execution/flashblocks/src/subscription.rs: the WebSocket client that feeds flashblocks in.
pub mod Wire
pub mod Connection
pub mod Limits
mod Tests
