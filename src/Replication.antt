-- ===== src/Replication.antt =====
-- crates/runen-net/src/replication: state replication from the authority to its clients.
pub mod Model
pub mod Client
pub mod Authority
