-- ===== src/Processor.antt =====
-- crates/execution/flashblocks/src/processor.rs
pub mod Transactions
pub mod Build
pub mod State
pub mod Canonical
pub mod Flashblock
pub mod Queue
pub mod Runs
pub mod Reconciling
pub mod Grouping
pub mod Origin
pub mod Published
pub mod Broadcast
mod Tests
