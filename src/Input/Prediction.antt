-- ===== src/Input/Prediction.antt =====
-- input/prediction.rs: the inputs that a client applies ahead of the authority.
pub mod State
pub mod Lineage
pub mod Observation
pub mod Validity
pub mod Reconciliation
pub mod Progress
pub mod Soundness
pub mod History
mod Witnesses
