-- ===== src/Replication/Client.antt =====
-- replication/client.rs: what a client retains of each lineage, and how snapshots are committed.
pub mod Lineage
pub mod Sets
pub mod Apply
pub mod Survivors
pub mod Plan
pub mod Validity
pub mod Commit
pub mod Aggregate
pub mod Applying
pub mod Full
pub mod Delta
pub mod History
mod Witnesses
