-- ===== src/Input.antt =====
-- crates/runen-net/src/input: what an authority retains of its participants' inputs.
pub mod Model
pub mod Authority
pub mod Membership
pub mod Retention
pub mod Window
pub mod Submission
pub mod Reconciliation
pub mod History
pub mod Prediction
mod Witnesses
