-- ===== src/Rpc.antt =====
-- crates/execution/flashblocks/src/rpc: what the node's RPC answers from the published snapshot.
pub mod Eth
pub mod Views
pub mod Logs
pub mod Sync
pub mod PubSub
pub mod Fees
mod Tests
