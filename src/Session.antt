-- ===== src/Session.antt =====
-- crates/runen-net/src/session.rs: participant membership, connection binding and recovery.
pub mod State
pub mod Operations
pub mod Invariant
pub mod Binding
pub mod Ending
pub mod Expiry
pub mod History
pub mod Authorization
pub mod Effects
pub mod Atomicity
pub mod Finality
pub mod Report
mod Witnesses
