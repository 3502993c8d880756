-- ===== src/Delivery.antt =====
-- crates/runen-net/src/delivery.rs: the endpoint of a transport's flows, and the delivery
-- modes.
pub mod Types
pub mod Accounting
pub mod Flows
pub mod Pressure
pub mod Sending
pub mod Receiving
pub mod Exposure
pub mod Ordering
pub mod Counting
pub mod Changing
pub mod Pending
pub mod Invariant
pub mod Submission
pub mod Polling
pub mod Terminating
pub mod Arrival
pub mod Reception
pub mod Delivering
pub mod Reordering
pub mod Opening
pub mod Joining
pub mod Association
pub mod Ending
pub mod Queries
pub mod History
pub mod Ended
mod Witnesses

pub data DeliveryMode : Type 0 where
  reliable_ordered unreliable_unordered unreliable_sequenced : DeliveryMode

-- delivery_acceptance.rs: whether a message was accepted into its delivery contract.
pub data DeliveryAcceptance : Type 0 where
  accepted not_accepted : DeliveryAcceptance
