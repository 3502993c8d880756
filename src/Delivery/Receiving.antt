-- ===== src/Delivery/Receiving.antt =====
-- delivery.rs: reception. A flow's buffer is the one of its mode; another is the `unreachable!`, a
-- panic.
use runen_net.Prelude.{
  ℕ, Bool, true, false, not, ◌&&◌, Option, none, some, List, [], ◌∷◌, ◌++◌, if◌then◌else◌, leb, ltb,
  nat_eq, ◌==◌, saturating_add, ok, err,
}
use runen_net.Collections.BTreeMap.{BTreeMap}
use runen_net.Collections.BTreeMap
use runen_net.Collections.HashMap
use runen_net.Delivery.{DeliveryMode, reliable_ordered, unreliable_unordered, unreliable_sequenced}
use runen_net.Delivery.Types.{
  DeliveryFlowKey, flow_key_eq, is_outbound, ReceiverPressureBehavior, terminate_reliable,
  drop_incoming_unreliable, evict_oldest_buffered_unreliable, DeliveryTransfer, payload_len,
  ReceiverBuffer, FlowState, DeliveryEndpoint,
}
use runen_net.Delivery.Accounting.{
  unknown_flow, wrong_direction, Operation, can_add_pending, add_pending, put_flow,
}
use runen_net.Delivery.Flows.{
  FlowTerminationReason, reliable_receiver_pressure, reliable_transfer_conflict,
  reliable_inbound_too_large, reliable_mode_mismatch, terminate_flow, is_reliable,
}
use runen_net.Delivery.Pressure.{with_inbound, evict_until_fits}

pub data ReceiveOutcome : Type 0 where
  buffered dropped_by_pressure : (local_pressure_drops : ℕ) → ReceiveOutcome
  dropped_too_large stale_sequenced duplicate_reliable rejected_mode_mismatch
        terminal_reliable_failure :
      ReceiveOutcome

abbrev pub mode_beq : DeliveryMode → DeliveryMode → Bool
mode_beq reliable_ordered reliable_ordered = true
mode_beq unreliable_unordered unreliable_unordered = true
mode_beq unreliable_sequenced unreliable_sequenced = true
mode_beq a b = false

abbrev pub bytes_beq : List ℕ → List ℕ → Bool
bytes_beq [] [] = true
bytes_beq [] (y ∷ ys) = false
bytes_beq (x ∷ xs) [] = false
bytes_beq (x ∷ xs) (y ∷ ys) = x == y && bytes_beq xs ys

abbrev pub transfer_beq : DeliveryTransfer → DeliveryTransfer → Bool
transfer_beq a b =
    mode_beq a.mode b.mode
    && (a.accepted_index == b.accepted_index && bytes_beq a.payload b.payload)

-- A transfer that was exposed or buffered before, and whether it conflicts with that; `none` for a new one.
unfoldable pub duplicate_or_conflict :
    BTreeMap DeliveryTransfer → Option ℕ → DeliveryTransfer → Option Bool
duplicate_or_conflict by_index none transfer = some false
duplicate_or_conflict by_index (some next) transfer =
    if ltb transfer.accepted_index next
    then some false
    else elim (BTreeMap.get by_index transfer.accepted_index) [
      | none ↦ none
      | some existing ↦ some (not (transfer_beq existing transfer))
    ]

abbrev pub is_stale : Option ℕ → ℕ → Bool
is_stale none index = false
is_stale (some last) index = leb index last

-- The flow is terminated; the termination is dropped.
unfoldable pub fail_reliable :
    DeliveryEndpoint → DeliveryFlowKey → FlowTerminationReason → Operation ReceiveOutcome
fail_reliable e key reason = elim (terminate_flow e key reason) [
  | none ↦ none
  | some (e', termination) ↦ some (e', ok terminal_reliable_failure)
]

abbrev pub note_duplicate : DeliveryEndpoint → DeliveryEndpoint
note_duplicate e = record e {
  diagnostics = record e.diagnostics {
    reliable_duplicate_suppressions =
        saturating_add e.diagnostics.reliable_duplicate_suppressions 1;
  };
}

abbrev pub note_stale : DeliveryEndpoint → DeliveryEndpoint
note_stale e = record e {
  diagnostics = record e.diagnostics {
    stale_sequenced_drops = saturating_add e.diagnostics.stale_sequenced_drops 1;
  };
}

abbrev pub note_inbound_drops : DeliveryEndpoint → ℕ → DeliveryEndpoint
note_inbound_drops e drops = record e {
  diagnostics = record e.diagnostics {
    inbound_unreliable_pressure_drops =
        saturating_add e.diagnostics.inbound_unreliable_pressure_drops drops;
  };
}

unfoldable pub buffer_reliable :
    DeliveryEndpoint
    → DeliveryFlowKey
    → FlowState
    → BTreeMap DeliveryTransfer
    → Option ℕ
    → DeliveryTransfer
    → Operation ReceiveOutcome
unfolding fail_reliable
buffer_reliable e key f by_index next transfer =
    elim (can_add_pending e key f 1 (payload_len transfer)) [
      | none ↦ none
      | some fits ↦ elim fits [
        | false ↦ fail_reliable e key reliable_receiver_pressure
        | true ↦
            let stored = record f {
              receiver =
                  ReceiverBuffer.reliable
                    (BTreeMap.insert by_index transfer.accepted_index transfer) next;
            } in
            elim (add_pending (put_flow e key stored) key 1 (payload_len transfer)) [
              | none ↦ none
              | some e' ↦ some (e', ok (buffered 0))
            ]
      ]
    ]

unfoldable pub receive_reliable :
    DeliveryEndpoint
    → DeliveryFlowKey
    → FlowState
    → ReceiverBuffer
    → DeliveryTransfer
    → Operation ReceiveOutcome
unfolding fail_reliable buffer_reliable
receive_reliable e key f (ReceiverBuffer.unreliable queue last) transfer = none
receive_reliable e key f (ReceiverBuffer.reliable by_index next) transfer =
    elim (duplicate_or_conflict by_index next transfer) [
      | some conflict ↦ elim conflict [
        | true ↦ fail_reliable e key reliable_transfer_conflict
        | false ↦ some (note_duplicate e, ok duplicate_reliable)
      ]
      | none ↦ buffer_reliable e key f by_index next transfer
    ]

abbrev pub queue_of : ReceiverBuffer → List DeliveryTransfer
queue_of (ReceiverBuffer.reliable by_index next) = []
queue_of (ReceiverBuffer.unreliable queue last) = queue

-- A transfer that fits is queued and counted.
unfoldable pub buffer_unreliable :
    DeliveryEndpoint → DeliveryFlowKey → Option ℕ → DeliveryTransfer → ℕ → Operation ReceiveOutcome
buffer_unreliable e key last transfer drops = elim (HashMap.get e.flows key) [
  | none ↦ some (e, err unknown_flow)
  | some f ↦
      elim (add_pending
        (put_flow e key (with_inbound last f (queue_of f.receiver ++ (transfer ∷ [])))) key 1
        (payload_len transfer)) [
          | none ↦ none
          | some e' ↦
              some (if ltb 0 drops then note_inbound_drops e' drops else e', ok (buffered drops))
        ]
]

unfoldable pub under_receiver_pressure :
    ReceiverPressureBehavior
    → DeliveryEndpoint
    → DeliveryFlowKey
    → List DeliveryTransfer
    → Option ℕ
    → DeliveryTransfer
    → Operation ReceiveOutcome
unfolding buffer_unreliable
under_receiver_pressure terminate_reliable e key queue last transfer = none
under_receiver_pressure drop_incoming_unreliable e key queue last transfer =
    some (note_inbound_drops e 1, ok (dropped_by_pressure 1))
under_receiver_pressure evict_oldest_buffered_unreliable e key queue last transfer =
    elim (evict_until_fits (with_inbound last) queue e key (payload_len transfer) 0) [
      | none ↦ none
      | some (e', drops, fits) ↦ elim fits [
        | true ↦ buffer_unreliable e' key last transfer drops
        | false ↦ some (
          note_inbound_drops e' (saturating_add drops 1),
          ok (dropped_by_pressure (saturating_add drops 1)),
        )
      ]
    ]

unfoldable pub receive_unreliable :
    DeliveryEndpoint
    → DeliveryFlowKey
    → FlowState
    → ReceiverBuffer
    → DeliveryTransfer
    → Bool
    → Operation ReceiveOutcome
unfolding buffer_unreliable under_receiver_pressure
receive_unreliable e key f (ReceiverBuffer.reliable by_index next) transfer sequenced = none
receive_unreliable e key f (ReceiverBuffer.unreliable queue last) transfer sequenced =
    if sequenced && is_stale last transfer.accepted_index
    then some (note_stale e, ok stale_sequenced)
    else elim (can_add_pending e key f 1 (payload_len transfer)) [
      | none ↦ none
      | some fits ↦ elim fits [
        | true ↦ buffer_unreliable e key last transfer 0
        | false ↦ under_receiver_pressure f.policy.receiver_pressure e key queue last transfer
      ]
    ]

unfoldable pub receive_in_mode :
    DeliveryMode
    → DeliveryEndpoint
    → DeliveryFlowKey
    → FlowState
    → DeliveryTransfer
    → Operation ReceiveOutcome
unfolding receive_reliable receive_unreliable
receive_in_mode reliable_ordered e key f transfer = receive_reliable e key f f.receiver transfer
receive_in_mode unreliable_unordered e key f transfer =
    receive_unreliable e key f f.receiver transfer false
receive_in_mode unreliable_sequenced e key f transfer =
    receive_unreliable e key f f.receiver transfer true

unfoldable pub receive :
    DeliveryEndpoint → DeliveryFlowKey → DeliveryTransfer → Operation ReceiveOutcome
unfolding fail_reliable receive_in_mode
receive e key transfer =
    if is_outbound key.direction
    then some (e, err wrong_direction)
    else elim (HashMap.get e.flows key) [
      | none ↦ some (e, err unknown_flow)
      | some f ↦
          if not (mode_beq transfer.mode f.mode)
          then (if is_reliable f.mode
              then fail_reliable e key reliable_mode_mismatch
              else some (e, ok rejected_mode_mismatch))
          else if ltb f.policy.max_message_bytes (payload_len transfer)
          then (if is_reliable f.mode
              then fail_reliable e key reliable_inbound_too_large
              else some (e, ok dropped_too_large))
          else receive_in_mode f.mode e key f transfer
    ]
