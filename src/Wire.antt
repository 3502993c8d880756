-- ===== src/Wire.antt =====
-- crates/runen-net-quic/src/wire.rs: integers, flow identities and control bodies on the wire.
pub mod VarInt
pub mod FlowId
pub mod Body
mod Witnesses
