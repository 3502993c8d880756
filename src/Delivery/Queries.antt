-- ===== src/Delivery/Queries.antt =====
-- delivery.rs: the getters of the endpoint and of a flow.
use runen_net.Prelude.{ℕ, not, Option, none, some, List, [], ◌∷◌, if◌then◌else◌, Result, ok, err}
use runen_net.Collections.HashMap
use runen_net.Delivery.{DeliveryMode, reliable_ordered, unreliable_unordered, unreliable_sequenced}
use runen_net.Delivery.Types.{
  DeliveryFlowKey, is_outbound, FlowResourcePolicy, DeliveryTransfer, payload_len, ReceiverBuffer,
  DeliveryEndpoint, flow_key_eq,
}
use runen_net.Delivery.Accounting.{DeliveryOperationError, unknown_flow, wrong_direction}

unfoldable pub flow_contract :
    DeliveryEndpoint → DeliveryFlowKey → Option (DeliveryMode × FlowResourcePolicy)
flow_contract e key = elim (HashMap.get e.flows key) [
  | none ↦ none
  | some f ↦ some (f.mode, f.policy)
]

unfoldable pub flow_pending_usage : DeliveryEndpoint → DeliveryFlowKey → Option (ℕ × ℕ)
flow_pending_usage e key = elim (HashMap.get e.flows key) [
  | none ↦ none
  | some f ↦ some (f.pending_messages, f.pending_payload_bytes)
]

unfoldable pub next_outbound_accepted_index :
    DeliveryEndpoint → DeliveryFlowKey → Result (Option ℕ) DeliveryOperationError
next_outbound_accepted_index e key = elim (HashMap.get e.flows key) [
  | none ↦ err unknown_flow
  | some f ↦
      if not (is_outbound key.direction) then err wrong_direction else ok f.next_accepted_index
]

pub record OutboundTransferMetadata : Type 0 where
  pub mode : DeliveryMode
  pub accepted_index : ℕ
  pub payload_len : ℕ

abbrev pub front_metadata : List DeliveryTransfer → Option OutboundTransferMetadata
front_metadata [] = none
front_metadata (t ∷ queue) =
    some (record { mode = t.mode; accepted_index = t.accepted_index; payload_len = payload_len t })

unfoldable pub peek_outbound_metadata :
    DeliveryEndpoint
    → DeliveryFlowKey
    → Result (Option OutboundTransferMetadata) DeliveryOperationError
peek_outbound_metadata e key = elim (HashMap.get e.flows key) [
  | none ↦ err unknown_flow
  | some f ↦
      if not (is_outbound key.direction)
      then err wrong_direction
      else ok (front_metadata f.outbound)
]

-- A reliable buffer under the sequenced mode is the `unreachable!`.
abbrev pub last_sequence : DeliveryMode → ReceiverBuffer → Option (Option ℕ)
last_sequence reliable_ordered buffer = some none
last_sequence unreliable_unordered buffer = some none
last_sequence unreliable_sequenced (ReceiverBuffer.reliable by_index next) = none
last_sequence unreliable_sequenced (ReceiverBuffer.unreliable queue last) = some last

unfoldable pub last_exposed_sequence :
    DeliveryEndpoint → DeliveryFlowKey → Option (Result (Option ℕ) DeliveryOperationError)
last_exposed_sequence e key = elim (HashMap.get e.flows key) [
  | none ↦ some (err unknown_flow)
  | some f ↦
      if is_outbound key.direction
      then some (err wrong_direction)
      else elim (last_sequence f.mode f.receiver) [ none ↦ none | some last ↦ some (ok last) ]
]
