-- ===== src/Replication/Authority.antt =====
-- replication/authority.rs: what the authority emits on each lineage, and what it knows of the client.
pub mod Types
pub mod Guards
pub mod Lineage
pub mod Retention
pub mod Emission
pub mod Validity
pub mod Recovery
pub mod Acknowledgement
pub mod Emitting
pub mod Pending
pub mod Eviction
pub mod Sessions
pub mod Reservation
pub mod History
pub mod Completion
mod Witnesses
