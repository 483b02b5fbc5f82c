-- ===== src/Simulator.antt =====
-- crates/execution/simulator/src: the checks of blocks that builders submit to the relay.
pub mod Multisend
pub mod Types
pub mod Header
pub mod Constraint
pub mod Disallowed
pub mod Blacklist
pub mod Payment
pub mod Inclusion
pub mod Submission
pub mod Relay
mod Samples
mod Tests
