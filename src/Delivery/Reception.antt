-- ===== src/Delivery/Reception.antt =====
-- delivery.rs: reception keeps the invariant, and does not panic.
use runen_net.Prelude.{
  ℕ, ◌≡◌, refl, ◌∙◌, Bool, true, false, ◌&&◌, Option, some, List, [], ◌∷◌, ◌++◌, ltb, nat_eq,
  length-append, sum_by-append, saturating_add, arith, Bool-cases, Option-cases, inl, inr, ok, err,
}
use runen_net.Collections.HashMap
use runen_net.Delivery.{DeliveryMode, reliable_ordered, unreliable_unordered, unreliable_sequenced}
use runen_net.Delivery.Types.{
  DeliveryFlowKey, flow_key_eq, is_outbound, ReceiverPressureBehavior, terminate_reliable,
  drop_incoming_unreliable, evict_oldest_buffered_unreliable, DeliveryTransfer, payload_len,
  ReceiverBuffer, FlowState, DeliveryEndpoint, validate_for_mode,
}
use runen_net.Delivery.Accounting.{can_add_pending, unknown_flow, wrong_direction}
use runen_net.Delivery.Flows.{reliable_inbound_too_large, reliable_mode_mismatch, is_reliable}
use runen_net.Delivery.Pressure.{with_inbound}
use runen_net.Delivery.Pending.{can_add_pending-some, can_add_pending-Fits}
use runen_net.Delivery.Receiving.{
  buffered, dropped_by_pressure, dropped_too_large, stale_sequenced, rejected_mode_mismatch,
  mode_beq, is_stale, note_stale, note_inbound_drops, queue_of, buffer_unreliable,
  under_receiver_pressure, receive_unreliable, receive_in_mode, receive,
}
use runen_net.Delivery.Invariant.{IsFlow, IsValid, Keeps, noted-IsValid, hold_message}
use runen_net.Delivery.Submission.{evict_until_fits-IsValid}
use runen_net.Delivery.Polling.{HoldsInbound, at_buffer, inbound-IsReleasable}
use runen_net.Delivery.Arrival.{fail_reliable-Keeps, receive_reliable-Keeps}

buffer_unreliable-Keeps :
    (e : DeliveryEndpoint) (key : DeliveryFlowKey) (f : FlowState) (queue : List DeliveryTransfer)
    (last : Option ℕ) (t : DeliveryTransfer) (drops : ℕ)
    → IsValid e
    → HashMap.get e.flows key ≡ some f
    → HoldsInbound last f queue
    → can_add_pending e key f 1 (payload_len t) ≡ some true
    → Keeps (buffer_unreliable e key last t drops)
unfolding buffer_unreliable
buffer_unreliable-Keeps e key f queue last t drops v h q c =
    let flow = HashMap.All-get IsFlow e.flows key f v.flows h in
    let (count, bytes, mode) = at_buffer f (ReceiverBuffer.unreliable queue last) flow q in
    let longer : queue_of f.receiver ++ (t ∷ []) ≡ queue ++ (t ∷ []) = rw q refl in
    let (e', r, v', g) =
      hold_message e key f f.next_accepted_index f.outbound
        (ReceiverBuffer.unreliable (queue_of f.receiver ++ (t ∷ [])) last) (payload_len t) v h
        (can_add_pending-Fits e key f (payload_len t) c)
        (record {
          messages = rw longer (omega (arith, count, length-append queue (t ∷ [])));
          bytes = rw longer (omega (arith, bytes, sum_by-append payload_len queue (t ∷ [])));
          buffer = mode;
          policy = flow.policy;
        }) in
    elim (Bool-cases (ltb 0 drops)) [
      | inl b ↦ (
        note_inbound_drops e' drops,
        ok (buffered drops),
        rw (h, r, b, buffer_unreliable) refl,
        noted-IsValid e' (note_inbound_drops e' drops).diagnostics v',
      )
      | inr b ↦ (e', ok (buffered drops), rw (h, r, b, buffer_unreliable) refl, v')
    ]

-- A valid flow of an unreliable mode does not have the policy of the reliable one.
tolerant :
    (f : FlowState)
    → IsFlow f
    → is_reliable f.mode ≡ false
    → f.policy.receiver_pressure ≡ terminate_reliable
    → ⊥
unfolding validate_for_mode
tolerant f flow m q = in_mode f.mode m flow.policy
  where
    in_mode : (m : DeliveryMode) → is_reliable m ≡ false → validate_for_mode f.policy m ≡ ok tt → ⊥
    in_mode reliable_ordered m p = absurd (cc)
    in_mode unreliable_unordered m p = cc (p, q)
    in_mode unreliable_sequenced m p = cc (p, q)

under_receiver_pressure-Keeps :
    (p : ReceiverPressureBehavior) (e : DeliveryEndpoint) (key : DeliveryFlowKey) (f : FlowState)
    (queue : List DeliveryTransfer) (last : Option ℕ) (t : DeliveryTransfer)
    → IsValid e
    → HashMap.get e.flows key ≡ some f
    → HoldsInbound last f queue
    → is_reliable f.mode ≡ false
    → f.policy.receiver_pressure ≡ p
    → Keeps (under_receiver_pressure p e key queue last t)
unfolding under_receiver_pressure
under_receiver_pressure-Keeps terminate_reliable e key f queue last t v h q m p =
    absurd (tolerant f (HashMap.All-get IsFlow e.flows key f v.flows h) m p)
under_receiver_pressure-Keeps drop_incoming_unreliable e key f queue last t v h q m p = (
  note_inbound_drops e 1,
  ok (dropped_by_pressure 1),
  refl,
  noted-IsValid e (note_inbound_drops e 1).diagnostics v,
)
under_receiver_pressure-Keeps evict_oldest_buffered_unreliable e key f queue last t v h q m p =
    let (e', drops, fits, s, v', f', h', c, rest, held) =
      evict_until_fits-IsValid key (with_inbound last) (HoldsInbound last) queue e f (payload_len t)
        0 (inbound-IsReleasable key last) v h q in
    elim (Bool-cases fits) [
      | inl b ↦
          let (e'', r, s', v'') =
            buffer_unreliable-Keeps e' key f' rest last t drops v' h' held (c ∙ rw b refl) in
          (e'', r, rw (s, b, under_receiver_pressure) s', v'')
      | inr b ↦ (
        note_inbound_drops e' (saturating_add drops 1),
        ok (dropped_by_pressure (saturating_add drops 1)),
        rw (s, b, under_receiver_pressure) refl,
        noted-IsValid e' (note_inbound_drops e' (saturating_add drops 1)).diagnostics v',
      )
    ]

receive_unreliable-Keeps :
    (e : DeliveryEndpoint) (key : DeliveryFlowKey) (f : FlowState) (r : ReceiverBuffer)
    (t : DeliveryTransfer) (sequenced : Bool)
    → IsValid e
    → HashMap.get e.flows key ≡ some f
    → f.receiver ≡ r
    → is_reliable f.mode ≡ false
    → Keeps (receive_unreliable e key f r t sequenced)
unfolding receive_unreliable
receive_unreliable-Keeps e key f (ReceiverBuffer.reliable by_index next) t sequenced v h q m =
    let (count, bytes, mode) =
      at_buffer f (ReceiverBuffer.reliable by_index next)
        (HashMap.All-get IsFlow e.flows key f v.flows h) q in
    absurd (cc (mode, m))
receive_unreliable-Keeps e key f (ReceiverBuffer.unreliable queue last) t sequenced v h q m =
    elim (Bool-cases (sequenced && is_stale last t.accepted_index)) [
      | inl s ↦ (
        note_stale e,
        ok stale_sequenced,
        rw (s, receive_unreliable) refl,
        noted-IsValid e (note_stale e).diagnostics v,
      )
      | inr s ↦
          let (fits, c) = can_add_pending-some e key f (payload_len t) v.counted h in
          elim (Bool-cases fits) [
            | inl b ↦
                let (e', r, s', v') =
                  buffer_unreliable-Keeps e key f queue last t 0 v h q (c ∙ rw b refl) in
                (e', r, rw (s, c, b, receive_unreliable) s', v')
            | inr b ↦
                let (e', r, s', v') =
                  under_receiver_pressure-Keeps f.policy.receiver_pressure e key f queue last t v h
                    q m refl in
                (e', r, rw (s, c, b, receive_unreliable) s', v')
          ]
    ]

-- Reception by a valid endpoint does not panic, whatever arrives, and leaves a valid endpoint.
pub receive-Keeps :
    (e : DeliveryEndpoint) (key : DeliveryFlowKey) (t : DeliveryTransfer)
    → IsValid e
    → Keeps (receive e key t)
unfolding receive receive_in_mode
receive-Keeps e key t v = elim (Bool-cases (is_outbound key.direction)) [
  | inl d ↦ (e, err wrong_direction, rw (d, receive) refl, v)
  | inr d ↦ elim (Option-cases (HashMap.get e.flows key)) [
    | inl h ↦ (e, err unknown_flow, rw (d, h, receive) refl, v)
    | inr (f, h) ↦ elim (Bool-cases (mode_beq t.mode f.mode)) [
      | inr b ↦ elim (Bool-cases (is_reliable f.mode)) [
        | inl m ↦
            let (e', r, s, v') = fail_reliable-Keeps e key reliable_mode_mismatch v in
            (e', r, rw (d, h, b, m, receive) s, v')
        | inr m ↦ (e, ok rejected_mode_mismatch, rw (d, h, b, m, receive) refl, v)
      ]
      | inl b ↦ elim (Bool-cases (ltb f.policy.max_message_bytes (payload_len t))) [
        | inl l ↦ elim (Bool-cases (is_reliable f.mode)) [
          | inl m ↦
              let (e', r, s, v') = fail_reliable-Keeps e key reliable_inbound_too_large v in
              (e', r, rw (d, h, b, l, m, receive) s, v')
          | inr m ↦ (e, ok dropped_too_large, rw (d, h, b, l, m, receive) refl, v)
        ]
        | inr l ↦
            let (e', r, s, v') = in_mode f f.mode h refl in (e', r, rw (d, h, b, l, receive) s, v')
      ]
    ]
  ]
]
  where
    in_mode :
        (f : FlowState) (m : DeliveryMode)
        → HashMap.get e.flows key ≡ some f
        → f.mode ≡ m
        → Keeps (receive_in_mode m e key f t)
    in_mode f reliable_ordered h q = receive_reliable-Keeps e key f t v h (rw q refl)
    in_mode f unreliable_unordered h q =
        receive_unreliable-Keeps e key f f.receiver t false v h refl (rw q refl)
    in_mode f unreliable_sequenced h q =
        receive_unreliable-Keeps e key f f.receiver t true v h refl (rw q refl)
