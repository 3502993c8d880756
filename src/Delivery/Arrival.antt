-- ===== src/Delivery/Arrival.antt =====
-- delivery.rs: what a transfer leaves of a reliable flow. Its arrival does not panic, keeps the
-- invariant, and ends the flow or stores the transfer.
use runen_net.Prelude.{
  ℕ, ◌≡◌, refl, sym, ap, ◌∙◌, true, false, Option, none, some, ltb, nat_eq, arith, Bool-cases,
  Option-cases, inl, inr, ok,
}
use runen_net.Collections.BTreeMap.{BTreeMap}
use runen_net.Collections.BTreeMap
use runen_net.Collections.HashMap
use runen_net.Delivery.{DeliveryMode, reliable_ordered, unreliable_unordered, unreliable_sequenced}
use runen_net.Delivery.Types.{
  DeliveryFlowKey, flow_key_eq, is_outbound, DeliveryTransfer, payload_len, ReceiverBuffer,
  FlowState, DeliveryEndpoint,
}
use runen_net.Delivery.Flows.{
  FlowTerminationReason, reliable_receiver_pressure, reliable_transfer_conflict,
  reliable_inbound_too_large, reliable_mode_mismatch, is_reliable,
}
use runen_net.Delivery.Pending.{can_add_pending-some, can_add_pending-Fits}
use runen_net.Delivery.Receiving.{
  buffered, duplicate_reliable, terminal_reliable_failure, mode_beq, duplicate_or_conflict,
  fail_reliable, note_duplicate, buffer_reliable, receive_reliable, receive_in_mode, receive,
}
use runen_net.Delivery.Invariant.{IsFlow, IsValid, Keeps, noted-IsValid, hold_message}
use runen_net.Delivery.Polling.{at_buffer}
use runen_net.Delivery.Ordering.{store, is_conflict}
use runen_net.Delivery.Terminating.{terminate_flow-Keeps, terminate_flow-flows}

-- The flow is gone, or its buffer is the one that `store` gives and the transfer did not conflict.
pub data IsStored (key : DeliveryFlowKey) (f : FlowState) (m : BTreeMap DeliveryTransfer)
    (next : Option ℕ) (t : DeliveryTransfer) (e : DeliveryEndpoint) : Type 0 where
  ended : HashMap.get e.flows key ≡ none → IsStored key f m next t e
  stored :
      (f' : FlowState)
      → HashMap.get e.flows key ≡ some f'
      → f'.receiver ≡ ReceiverBuffer.reliable (store m next t) next
      → is_conflict (duplicate_or_conflict m next t) ≡ false
      → IsStored key f m next t e

abbrev pub Stores :
    {A : Type 0}
    → DeliveryFlowKey
    → FlowState
    → BTreeMap DeliveryTransfer
    → Option ℕ
    → DeliveryTransfer
    → Option (DeliveryEndpoint × A)
    → Type 0
Stores {A = A} key f m next t o =
    (e' : DeliveryEndpoint) × (a : A) × (o ≡ some (e', a)) × IsValid e' × IsStored key f m next t e'

-- A reliable flow that fails is gone.
fail_reliable-none :
    (e : DeliveryEndpoint) (key : DeliveryFlowKey) (reason : FlowTerminationReason)
    → IsValid e
    → (e' : DeliveryEndpoint) × (fail_reliable e key reason
        ≡ some (e', ok terminal_reliable_failure))
      × IsValid e'
      × (HashMap.get e'.flows key ≡ none)
unfolding fail_reliable
fail_reliable-none e key reason v =
    let (e', t, q, v') = terminate_flow-Keeps e key reason v in
    (
      e',
      rw (q, fail_reliable) refl,
      v',
      rw (terminate_flow-flows e e' key reason t q)
          (ground (arith, HashMap.get-remove e.flows key key)),
    )

pub fail_reliable-Keeps :
    (e : DeliveryEndpoint) (key : DeliveryFlowKey) (reason : FlowTerminationReason)
    → IsValid e
    → Keeps (fail_reliable e key reason)
fail_reliable-Keeps e key reason v =
    let (e', q, v', g) = fail_reliable-none e key reason v in
    (e', ok terminal_reliable_failure, q, v')

new_index :
    (m : BTreeMap DeliveryTransfer) (next : Option ℕ) (t : DeliveryTransfer)
    → duplicate_or_conflict m next t ≡ none
    → BTreeMap.get m t.accepted_index ≡ none
unfolding duplicate_or_conflict
new_index m none t h = absurd (cc)
new_index m (some next) t h = elim (Option-cases (BTreeMap.get m t.accepted_index)) [
  | inl e ↦ e
  | inr (x, e) ↦ elim (Bool-cases (ltb t.accepted_index next)) [
    | inl b ↦ absurd (ground (arith, b))
    | inr b ↦ absurd (ground (arith, b, e))
  ]
]

buffer_reliable-Stores :
    (e : DeliveryEndpoint) (key : DeliveryFlowKey) (f : FlowState) (m : BTreeMap DeliveryTransfer)
    (next : Option ℕ) (t : DeliveryTransfer)
    → IsValid e
    → HashMap.get e.flows key ≡ some f
    → f.receiver ≡ ReceiverBuffer.reliable m next
    → duplicate_or_conflict m next t ≡ none
    → Stores key f m next t (buffer_reliable e key f m next t)
unfolding buffer_reliable store
buffer_reliable-Stores e key f m next t v h q d =
    let (fits, c) = can_add_pending-some e key f (payload_len t) v.counted h in
    elim (Bool-cases fits) [
      | inr b ↦
          let (e', s, v', g) = fail_reliable-none e key reliable_receiver_pressure v in
          (e', ok terminal_reliable_failure, rw (c, b, buffer_reliable) s, v', ended g)
      | inl b ↦
          let flow = HashMap.All-get IsFlow e.flows key f v.flows h in
          let (count, bytes, mode) = at_buffer f (ReceiverBuffer.reliable m next) flow q in
          let absent = new_index m next t d in
          let more = BTreeMap.length-insert_absent m t.accepted_index t absent in
          let heavier = BTreeMap.total-insert_absent payload_len m t.accepted_index t absent in
          let (e', r, v', g) =
            hold_message e key f f.next_accepted_index f.outbound
              (ReceiverBuffer.reliable (BTreeMap.insert m t.accepted_index t) next) (payload_len t)
              v h (can_add_pending-Fits e key f (payload_len t) (c ∙ rw b refl))
              (record {
                messages = omega (arith, count, more);
                bytes = omega (arith, bytes, heavier);
                buffer = mode;
                policy = flow.policy;
              }) in
          (
            e',
            ok (buffered 0),
            rw (c, b, r, buffer_reliable) refl,
            v',
            stored _ g (rw (store, d) refl) (rw d refl),
          )
    ]

receive_reliable-Stores :
    (e : DeliveryEndpoint) (key : DeliveryFlowKey) (f : FlowState) (m : BTreeMap DeliveryTransfer)
    (next : Option ℕ) (t : DeliveryTransfer)
    → IsValid e
    → HashMap.get e.flows key ≡ some f
    → f.receiver ≡ ReceiverBuffer.reliable m next
    → Stores key f m next t (receive_reliable e key f (ReceiverBuffer.reliable m next) t)
unfolding receive_reliable store
receive_reliable-Stores e key f m next t v h q =
    elim (Option-cases (duplicate_or_conflict m next t)) [
      | inl d ↦ rw (d, receive_reliable) (buffer_reliable-Stores e key f m next t v h q d)
      | inr (conflict, d) ↦ elim (Bool-cases conflict) [
        | inl b ↦
            let (e', s, v', g) = fail_reliable-none e key reliable_transfer_conflict v in
            (e', ok terminal_reliable_failure, rw (d, b, receive_reliable) s, v', ended g)
        | inr b ↦ (
          note_duplicate e,
          ok duplicate_reliable,
          rw (d, b, receive_reliable) refl,
          noted-IsValid e (note_duplicate e).diagnostics v,
          stored f h (q ∙ rw (store, d) refl) (rw d b),
        )
      ]
    ]

-- The buffer of a reliable flow of a valid endpoint.
pub reliable_buffer :
    (f : FlowState)
    → IsFlow f
    → is_reliable f.mode ≡ true
    → (m : BTreeMap DeliveryTransfer) × (next : Option ℕ) × (f.receiver
        ≡ ReceiverBuffer.reliable m next)
reliable_buffer f flow h = go f.receiver refl
  where
    go :
        (r : ReceiverBuffer)
        → f.receiver ≡ r
        → (m : BTreeMap DeliveryTransfer) × (next : Option ℕ) × (f.receiver
            ≡ ReceiverBuffer.reliable m next)
    go (ReceiverBuffer.reliable m next) q = (m, next, q)
    go (ReceiverBuffer.unreliable queue last) q =
        let (count, bytes, mode) = at_buffer f (ReceiverBuffer.unreliable queue last) flow q in
        absurd (cc (mode, h))

pub receive_reliable-Keeps :
    (e : DeliveryEndpoint) (key : DeliveryFlowKey) (f : FlowState) (t : DeliveryTransfer)
    → IsValid e
    → HashMap.get e.flows key ≡ some f
    → is_reliable f.mode ≡ true
    → Keeps (receive_reliable e key f f.receiver t)
receive_reliable-Keeps e key f t v h reliable =
    let (m, next, q) =
      reliable_buffer f (HashMap.All-get IsFlow e.flows key f v.flows h) reliable in
    let (e', a, r, v', s) = receive_reliable-Stores e key f m next t v h q in
    (e', a, ap (λ b. receive_reliable e key f b t) q ∙ r, v')

pub reliable_mode : (mode : DeliveryMode) → is_reliable mode ≡ true → mode ≡ reliable_ordered
reliable_mode reliable_ordered h = refl
reliable_mode unreliable_unordered h = absurd (cc)
reliable_mode unreliable_sequenced h = absurd (cc)

-- A transfer that arrives for an inbound flow with a reliable buffer is stored, or ends the flow.
pub receive-Stores :
    (e : DeliveryEndpoint) (key : DeliveryFlowKey) (f : FlowState) (m : BTreeMap DeliveryTransfer)
    (next : Option ℕ) (t : DeliveryTransfer)
    → IsValid e
    → is_outbound key.direction ≡ false
    → HashMap.get e.flows key ≡ some f
    → f.receiver ≡ ReceiverBuffer.reliable m next
    → Stores key f m next t (receive e key t)
unfolding receive receive_in_mode
receive-Stores e key f m next t v d h q =
    let flow = HashMap.All-get IsFlow e.flows key f v.flows h in
    let (count, bytes, kind) = at_buffer f (ReceiverBuffer.reliable m next) flow q in
    let reliable : is_reliable f.mode ≡ true = sym kind in
    let in_mode : receive_in_mode f.mode e key f t
        ≡ receive_reliable e key f (ReceiverBuffer.reliable m next) t =
      ap (λ x. receive_in_mode x e key f t) (reliable_mode f.mode reliable)
      ∙ ap (λ x. receive_reliable e key f x t) q in
    elim (Bool-cases (mode_beq t.mode f.mode)) [
      | inr b ↦
          let (e', s, v', g) = fail_reliable-none e key reliable_mode_mismatch v in
          (e', ok terminal_reliable_failure, rw (d, h, b, reliable, receive) s, v', ended g)
      | inl b ↦ elim (Bool-cases (ltb f.policy.max_message_bytes (payload_len t))) [
        | inl l ↦
            let (e', s, v', g) = fail_reliable-none e key reliable_inbound_too_large v in
            (e', ok terminal_reliable_failure, rw (d, h, b, l, reliable, receive) s, v', ended g)
        | inr l ↦
            let (e', a, s, v', st) = receive_reliable-Stores e key f m next t v h q in
            (e', a, rw (d, h, b, l, receive) (in_mode ∙ s), v', st)
      ]
    ]
