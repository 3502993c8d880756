-- ===== src/Delivery/Sending.antt =====
-- delivery.rs: submission, and the transport's custody of what was submitted.
use runen_net.Prelude.{
  ℕ, true, false, not, Option, none, some, List, [], ◌∷◌, ◌++◌, if◌then◌else◌, ltb, nat_eq, ◌==◌,
  length, checked_add, saturating_add, Result, ok, err,
}
use runen_net.Collections.HashMap
use runen_net.Delivery.Types.{
  DeliveryFlowKey, flow_key_eq, is_outbound, OutboundPressureBehavior, reject_new,
  evict_oldest_unreliable, DeliveryTransfer, payload_len, FlowState, DeliveryEndpoint,
}
use runen_net.Delivery.Accounting.{
  DeliveryOperationError, unknown_flow, wrong_direction, Operation, can_add_pending, add_pending,
  remove_pending, put_flow,
}
use runen_net.Delivery.Pressure.{with_outbound, evict_until_fits}

pub data SubmissionOutcome : Type 0 where
  submitted : (accepted_index local_pressure_drops : ℕ) → SubmissionOutcome
  rejected_too_large rejected_pressure rejected_counter_exhausted : SubmissionOutcome

pub data CustodyCommitError : Type 0 where
  unknown_custody_flow wrong_custody_direction no_pending_message not_front : CustodyCommitError

abbrev pub note_outbound_drops : DeliveryEndpoint → ℕ → DeliveryEndpoint
note_outbound_drops e drops = record e {
  diagnostics = record e.diagnostics {
    outbound_unreliable_pressure_drops =
        saturating_add e.diagnostics.outbound_unreliable_pressure_drops drops;
  };
}

-- A message that fits is queued and counted.
unfoldable pub enqueue :
    DeliveryEndpoint → DeliveryFlowKey → DeliveryTransfer → ℕ → Operation SubmissionOutcome
enqueue e key transfer drops = elim (HashMap.get e.flows key) [
  | none ↦ some (e, err unknown_flow)
  | some f ↦
      let queued = record f {
        next_accepted_index = checked_add transfer.accepted_index 1;
        outbound = f.outbound ++ (transfer ∷ []);
      } in
      elim (add_pending (put_flow e key queued) key 1 (payload_len transfer)) [
        | none ↦ none
        | some e' ↦ some (
          if ltb 0 drops then note_outbound_drops e' drops else e',
          ok (submitted transfer.accepted_index drops),
        )
      ]
]

-- A message that does not fit.
unfoldable pub under_pressure :
    OutboundPressureBehavior
    → DeliveryEndpoint
    → DeliveryFlowKey
    → FlowState
    → DeliveryTransfer
    → Operation SubmissionOutcome
unfolding enqueue evict_until_fits
under_pressure reject_new e key f transfer = some (e, ok rejected_pressure)
under_pressure evict_oldest_unreliable e key f transfer =
    elim (evict_until_fits with_outbound f.outbound e key (payload_len transfer) 0) [
      | none ↦ none
      | some (e', drops, fits) ↦ elim fits [
        | true ↦ enqueue e' key transfer drops
        | false ↦ some (e', ok rejected_pressure)
      ]
    ]

unfoldable pub submit : DeliveryEndpoint → DeliveryFlowKey → List ℕ → Operation SubmissionOutcome
unfolding enqueue under_pressure
submit e key payload = elim (HashMap.get e.flows key) [
  | none ↦ some (e, err unknown_flow)
  | some f ↦
      if not (is_outbound key.direction)
      then some (e, err wrong_direction)
      else if ltb f.policy.max_message_bytes (length payload)
      then some (e, ok rejected_too_large)
      else elim f.next_accepted_index [
        | none ↦ some (e, ok rejected_counter_exhausted)
        | some index ↦
            let transfer : DeliveryTransfer = record {
              mode = f.mode;
              accepted_index = index;
              payload = payload;
            } in
            elim (can_add_pending e key f 1 (length payload)) [
              | none ↦ none
              | some fits ↦ elim fits [
                | true ↦ enqueue e key transfer 0
                | false ↦ under_pressure f.policy.outbound_pressure e key f transfer
              ]
            ]
      ]
]

abbrev pub front : List DeliveryTransfer → Option DeliveryTransfer
front [] = none
front (t ∷ queue) = some t

unfoldable pub peek_outbound :
    DeliveryEndpoint → DeliveryFlowKey → Result (Option DeliveryTransfer) DeliveryOperationError
peek_outbound e key = elim (HashMap.get e.flows key) [
  | none ↦ err unknown_flow
  | some f ↦ if not (is_outbound key.direction) then err wrong_direction else ok (front f.outbound)
]

unfoldable pub commit_front :
    DeliveryEndpoint
    → DeliveryFlowKey
    → FlowState
    → List DeliveryTransfer
    → ℕ
    → Option (DeliveryEndpoint × Result DeliveryTransfer CustodyCommitError)
commit_front e key f [] index = some (e, err no_pending_message)
commit_front e key f (transfer ∷ queue) index =
    if not (transfer.accepted_index == index)
    then some (e, err not_front)
    else elim (remove_pending (put_flow e key (with_outbound f queue)) key 1
        (payload_len transfer)) [ none ↦ none | some e' ↦ some (e', ok transfer) ]

unfoldable pub commit_outbound_custody :
    DeliveryEndpoint
    → DeliveryFlowKey
    → ℕ
    → Option (DeliveryEndpoint × Result DeliveryTransfer CustodyCommitError)
unfolding commit_front
commit_outbound_custody e key index =
    if not (is_outbound key.direction)
    then some (e, err wrong_custody_direction)
    else elim (HashMap.get e.flows key) [
      | none ↦ some (e, err unknown_custody_flow)
      | some f ↦ commit_front e key f f.outbound index
    ]
