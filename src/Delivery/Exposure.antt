-- ===== src/Delivery/Exposure.antt =====
-- delivery.rs: what an inbound flow exposes to the application.
use runen_net.Prelude.{
  ℕ, true, false, Option, none, some, List, [], ◌∷◌, if◌then◌else◌, nat_eq, checked_add, ok, err,
}
use runen_net.Collections.BTreeMap.{BTreeMap}
use runen_net.Collections.BTreeMap
use runen_net.Collections.HashMap
use runen_net.Delivery.{DeliveryMode, reliable_ordered, unreliable_unordered, unreliable_sequenced}
use runen_net.Delivery.Types.{
  DeliveryFlowKey, flow_key_eq, is_outbound, DeliveryTransfer, payload_len, ReceiverBuffer,
  FlowState, DeliveryEndpoint,
}
use runen_net.Delivery.Accounting.{
  unknown_flow, wrong_direction, Operation, remove_pending, put_flow,
}
use runen_net.Delivery.Receiving.{is_stale, note_stale}
use runen_net.Delivery.Pressure.{with_inbound}

pub record ExposedMessage : Type 0 where
  pub accepted_index : ℕ
  pub payload : List ℕ

abbrev pub exposed : DeliveryTransfer → ExposedMessage
exposed t = record { accepted_index = t.accepted_index; payload = t.payload }

-- The transfer that a reliable buffer exposes next, and the buffer without it.
unfoldable pub take_expected :
    BTreeMap DeliveryTransfer
    → Option ℕ
    → Option (DeliveryTransfer × BTreeMap DeliveryTransfer × Option ℕ)
take_expected by_index none = none
take_expected by_index (some expected) = elim (BTreeMap.get by_index expected) [
  | none ↦ none
  | some transfer ↦ some (transfer, BTreeMap.remove by_index expected, checked_add expected 1)
]

unfoldable pub poll_reliable_exposure :
    DeliveryEndpoint
    → DeliveryFlowKey
    → FlowState
    → ReceiverBuffer
    → Operation (Option ExposedMessage)
unfolding take_expected
poll_reliable_exposure e key f (ReceiverBuffer.unreliable queue last) = none
poll_reliable_exposure e key f (ReceiverBuffer.reliable by_index next) =
    elim (take_expected by_index next) [
      | none ↦ some (e, ok none)
      | some (transfer, rest, next') ↦
          elim (remove_pending
            (put_flow e key (record f { receiver = ReceiverBuffer.reliable rest next' })) key 1
            (payload_len transfer)) [
              | none ↦ none
              | some e' ↦ some (e', ok (some (exposed transfer)))
            ]
    ]

unfoldable pub poll_unordered_exposure :
    DeliveryEndpoint
    → DeliveryFlowKey
    → FlowState
    → ReceiverBuffer
    → Operation (Option ExposedMessage)
poll_unordered_exposure e key f (ReceiverBuffer.reliable by_index next) = none
poll_unordered_exposure e key f (ReceiverBuffer.unreliable [] last) = some (e, ok none)
poll_unordered_exposure e key f (ReceiverBuffer.unreliable (transfer ∷ queue) last) =
    elim (remove_pending (put_flow e key (with_inbound last f queue)) key 1
      (payload_len transfer)) [ none ↦ none | some e' ↦ some (e', ok (some (exposed transfer))) ]

-- The loop over the queue: stale transfers are dropped, and the first other one is exposed.
unfoldable pub poll_sequenced :
    List DeliveryTransfer
    → Option ℕ
    → DeliveryEndpoint
    → DeliveryFlowKey
    → Operation (Option ExposedMessage)
poll_sequenced [] last e key = some (e, ok none)
poll_sequenced (transfer ∷ queue) last e key = elim (HashMap.get e.flows key) [
  | none ↦ some (e, err unknown_flow)
  | some f ↦
      elim (remove_pending (put_flow e key (with_inbound last f queue)) key 1
        (payload_len transfer)) [
          | none ↦ none
          | some e' ↦ elim (is_stale last transfer.accepted_index) [
            | true ↦ poll_sequenced queue last (note_stale e') key
            | false ↦ elim (HashMap.get e'.flows key) [
              | none ↦ some (e', err unknown_flow)
              | some f' ↦ some (
                put_flow e' key (with_inbound (some transfer.accepted_index) f' queue),
                ok (some (exposed transfer)),
              )
            ]
          ]
        ]
]

unfoldable pub poll_sequenced_exposure :
    DeliveryEndpoint → DeliveryFlowKey → ReceiverBuffer → Operation (Option ExposedMessage)
unfolding poll_sequenced
poll_sequenced_exposure e key (ReceiverBuffer.reliable by_index next) = none
poll_sequenced_exposure e key (ReceiverBuffer.unreliable queue last) =
    poll_sequenced queue last e key

unfoldable pub poll_in_mode :
    DeliveryMode
    → DeliveryEndpoint
    → DeliveryFlowKey
    → FlowState
    → Operation (Option ExposedMessage)
unfolding poll_reliable_exposure poll_unordered_exposure poll_sequenced_exposure
poll_in_mode reliable_ordered e key f = poll_reliable_exposure e key f f.receiver
poll_in_mode unreliable_unordered e key f = poll_unordered_exposure e key f f.receiver
poll_in_mode unreliable_sequenced e key f = poll_sequenced_exposure e key f.receiver

unfoldable pub poll_exposure :
    DeliveryEndpoint → DeliveryFlowKey → Operation (Option ExposedMessage)
unfolding poll_in_mode
poll_exposure e key =
    if is_outbound key.direction
    then some (e, err wrong_direction)
    else elim (HashMap.get e.flows key) [
      | none ↦ some (e, err unknown_flow)
      | some f ↦ poll_in_mode f.mode e key f
    ]
