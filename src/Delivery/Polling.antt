-- ===== src/Delivery/Polling.antt =====
-- delivery.rs: exposure keeps the invariant, and does not panic.
use runen_net.Prelude.{
  ℕ, ◌+◌, ◌≡◌, refl, true, false, Option, none, some, List, [], ◌∷◌, nat_eq, length, sum_by, arith,
  Bool-cases, Option-cases, inl, inr, ok, err,
}
use runen_net.Collections.BTreeMap.{BTreeMap, total}
use runen_net.Collections.BTreeMap
use runen_net.Collections.HashMap
use runen_net.Delivery.{DeliveryMode, reliable_ordered, unreliable_unordered, unreliable_sequenced}
use runen_net.Delivery.Types.{
  DeliveryFlowKey, flow_key_eq, is_outbound, DeliveryTransfer, payload_len, ReceiverBuffer,
  FlowState, DeliveryEndpoint,
}
use runen_net.Delivery.Accounting.{put_flow, unknown_flow, wrong_direction}
use runen_net.Delivery.Flows.{is_reliable}
use runen_net.Delivery.Pressure.{with_inbound}
use runen_net.Delivery.Receiving.{is_stale, note_stale}
use runen_net.Delivery.Exposure.{
  exposed, take_expected, poll_reliable_exposure, poll_unordered_exposure, poll_sequenced,
  poll_sequenced_exposure, poll_in_mode, poll_exposure,
}
use runen_net.Delivery.Invariant.{
  IsFlow, IsValid, Keeps, noted-IsValid, release_message, held_count, held_bytes,
  is_reliable_buffer, put_flow-IsCounted,
}
use runen_net.Delivery.Submission.{IsReleasable}
use mathlib.Core.Path.{subst}

abbrev pub HoldsInbound : Option ℕ → FlowState → List DeliveryTransfer → Type 0
HoldsInbound last f queue = f.receiver ≡ ReceiverBuffer.unreliable queue last

-- What a valid flow says of its buffer.
pub at_buffer :
    (f : FlowState) (r : ReceiverBuffer)
    → IsFlow f
    → f.receiver ≡ r
    → (f.pending_messages ≡ length f.outbound + held_count r)
      × (f.pending_payload_bytes ≡ sum_by payload_len f.outbound + held_bytes r)
      × (is_reliable_buffer r ≡ is_reliable f.mode)
at_buffer f r flow q =
    subst
      (λ r.
        (f.pending_messages ≡ length f.outbound + held_count r)
        × (f.pending_payload_bytes ≡ sum_by payload_len f.outbound + held_bytes r)
        × (is_reliable_buffer r ≡ is_reliable f.mode))
      q (flow.messages, flow.bytes, flow.buffer)

pub inbound-IsReleasable :
    (key : DeliveryFlowKey) (last : Option ℕ)
    → IsReleasable key (with_inbound last) (HoldsInbound last)
inbound-IsReleasable key last e f t queue v h q =
    let flow = HashMap.All-get IsFlow e.flows key f v.flows h in
    let (count, bytes, mode) = at_buffer f (ReceiverBuffer.unreliable (t ∷ queue) last) flow q in
    let (e', r, v', g) =
      release_message e key f f.next_accepted_index f.outbound
        (ReceiverBuffer.unreliable queue last) (payload_len t) v h (omega (arith, count))
        (omega (arith, bytes))
        (record {
          messages = omega (arith, count);
          bytes = omega (arith, bytes);
          buffer = mode;
          policy = flow.policy;
        }) in
    (e', r, v', _, g, refl)

-- What the buffer exposes next leaves it.
take_expected-counts :
    (m : BTreeMap DeliveryTransfer) (next : Option ℕ) (t : DeliveryTransfer)
    (rest : BTreeMap DeliveryTransfer) (next' : Option ℕ)
    → take_expected m next ≡ some (t, rest, next')
    → (length rest + 1 ≡ length m) × (total payload_len rest + payload_len t ≡ total payload_len m)
unfolding take_expected
take_expected-counts m none t rest next' h = absurd (cc)
take_expected-counts m (some n) t rest next' h = elim (Option-cases (BTreeMap.get m n)) [
  | inl g ↦ absurd (ground arith)
  | inr (x, g) ↦
      let fewer = BTreeMap.length-remove m n x g in
      let lighter = BTreeMap.total-remove payload_len m n x g in
      (ground (arith, fewer), ground (arith, lighter))
]

-- A reliable flow exposes the transfer that is next in its buffer, and keeps the others.
pub poll_reliable-takes :
    (e : DeliveryEndpoint) (key : DeliveryFlowKey) (f : FlowState) (m : BTreeMap DeliveryTransfer)
    (next : Option ℕ) (t : DeliveryTransfer) (rest : BTreeMap DeliveryTransfer) (next' : Option ℕ)
    → IsValid e
    → HashMap.get e.flows key ≡ some f
    → f.receiver ≡ ReceiverBuffer.reliable m next
    → take_expected m next ≡ some (t, rest, next')
    → (e' : DeliveryEndpoint) × (poll_reliable_exposure e key f (ReceiverBuffer.reliable m next)
        ≡ some (e', ok (some (exposed t))))
      × IsValid e'
      × (f' : FlowState) × (HashMap.get e'.flows key ≡ some f')
      × (f'.receiver ≡ ReceiverBuffer.reliable rest next')
unfolding poll_reliable_exposure
poll_reliable-takes e key f m next t rest next' v h q taken =
    let flow = HashMap.All-get IsFlow e.flows key f v.flows h in
    let (count, bytes, mode) = at_buffer f (ReceiverBuffer.reliable m next) flow q in
    let (fewer, lighter) = take_expected-counts m next t rest next' taken in
    let (e', r, v', g) =
      release_message e key f f.next_accepted_index f.outbound (ReceiverBuffer.reliable rest next')
        (payload_len t) v h (omega (arith, count, fewer)) (omega (arith, bytes, lighter))
        (record {
          messages = omega (arith, count, fewer);
          bytes = omega (arith, bytes, lighter);
          buffer = mode;
          policy = flow.policy;
        }) in
    (e', rw (taken, r, poll_reliable_exposure) refl, v', _, g, refl)

poll_reliable-Keeps :
    (e : DeliveryEndpoint) (key : DeliveryFlowKey) (f : FlowState) (r : ReceiverBuffer)
    → IsValid e
    → HashMap.get e.flows key ≡ some f
    → f.receiver ≡ r
    → is_reliable f.mode ≡ true
    → Keeps (poll_reliable_exposure e key f r)
unfolding poll_reliable_exposure
poll_reliable-Keeps e key f (ReceiverBuffer.unreliable queue last) v h q m =
    let (count, bytes, mode) =
      at_buffer f (ReceiverBuffer.unreliable queue last)
        (HashMap.All-get IsFlow e.flows key f v.flows h) q in
    absurd (cc (mode, m))
poll_reliable-Keeps e key f (ReceiverBuffer.reliable by_index next) v h q m =
    elim (Option-cases (take_expected by_index next)) [
      | inl g ↦ (e, ok none, rw (g, poll_reliable_exposure) refl, v)
      | inr ((t, rest, next'), g) ↦
          let (e', r, v', f', g', b) =
            poll_reliable-takes e key f by_index next t rest next' v h q g in
          (e', ok (some (exposed t)), r, v')
    ]

poll_unordered-Keeps :
    (e : DeliveryEndpoint) (key : DeliveryFlowKey) (f : FlowState) (r : ReceiverBuffer)
    → IsValid e
    → HashMap.get e.flows key ≡ some f
    → f.receiver ≡ r
    → is_reliable f.mode ≡ false
    → Keeps (poll_unordered_exposure e key f r)
unfolding poll_unordered_exposure
poll_unordered-Keeps e key f (ReceiverBuffer.reliable by_index next) v h q m =
    let (count, bytes, mode) =
      at_buffer f (ReceiverBuffer.reliable by_index next)
        (HashMap.All-get IsFlow e.flows key f v.flows h) q in
    absurd (cc (mode, m))
poll_unordered-Keeps e key f (ReceiverBuffer.unreliable [] last) v h q m = (e, ok none, refl, v)
poll_unordered-Keeps e key f (ReceiverBuffer.unreliable (t ∷ queue) last) v h q m =
    let (e', r, v', f', h', q') = inbound-IsReleasable key last e f t queue v h q in
    (e', ok (some (exposed t)), rw (r, poll_unordered_exposure) refl, v')

-- The last sequence number of a flow does not count.
put_last-IsValid :
    (e : DeliveryEndpoint) (key : DeliveryFlowKey) (f : FlowState) (queue : List DeliveryTransfer)
    (last last' : Option ℕ)
    → IsValid e
    → HashMap.get e.flows key ≡ some f
    → HoldsInbound last f queue
    → IsValid (put_flow e key (with_inbound last' f queue))
put_last-IsValid e key f queue last last' v h q =
    let flow = HashMap.All-get IsFlow e.flows key f v.flows h in
    let (count, bytes, mode) = at_buffer f (ReceiverBuffer.unreliable queue last) flow q in
    record {
      counted =
          put_flow-IsCounted e key f f.next_accepted_index f.outbound
            (ReceiverBuffer.unreliable queue last') v.counted h;
      flows =
          HashMap.All-insert IsFlow e.flows key (with_inbound last' f queue)
            (record { messages = count; bytes = bytes; buffer = mode; policy = flow.policy })
            v.flows;
    }

poll_sequenced-Keeps :
    (queue : List DeliveryTransfer) (last : Option ℕ) (e : DeliveryEndpoint) (key : DeliveryFlowKey)
    (f : FlowState)
    → IsValid e
    → HashMap.get e.flows key ≡ some f
    → HoldsInbound last f queue
    → Keeps (poll_sequenced queue last e key)
unfolding poll_sequenced
poll_sequenced-Keeps [] last e key f v h q = (e, ok none, refl, v)
poll_sequenced-Keeps (t ∷ queue) last e key f v h q =
    let (e', r, v', f', h', q') = inbound-IsReleasable key last e f t queue v h q in
    let (e'', answer, s, v'') =
      poll_sequenced-Keeps queue last (note_stale e') key f'
        (noted-IsValid e' (note_stale e').diagnostics v') h' q' in
    elim (Bool-cases (is_stale last t.accepted_index)) [
      | inl b ↦ (e'', answer, rw (h, r, b, poll_sequenced) s, v'')
      | inr b ↦ (
        put_flow e' key (with_inbound (some t.accepted_index) f' queue),
        ok (some (exposed t)),
        rw (h, r, b, h', poll_sequenced) refl,
        put_last-IsValid e' key f' queue last (some t.accepted_index) v' h' q',
      )
    ]

poll_sequenced_exposure-Keeps :
    (e : DeliveryEndpoint) (key : DeliveryFlowKey) (f : FlowState) (r : ReceiverBuffer)
    → IsValid e
    → HashMap.get e.flows key ≡ some f
    → f.receiver ≡ r
    → is_reliable f.mode ≡ false
    → Keeps (poll_sequenced_exposure e key r)
unfolding poll_sequenced_exposure
poll_sequenced_exposure-Keeps e key f (ReceiverBuffer.reliable by_index next) v h q m =
    let (count, bytes, mode) =
      at_buffer f (ReceiverBuffer.reliable by_index next)
        (HashMap.All-get IsFlow e.flows key f v.flows h) q in
    absurd (cc (mode, m))
poll_sequenced_exposure-Keeps e key f (ReceiverBuffer.unreliable queue last) v h q m =
    poll_sequenced-Keeps queue last e key f v h q

pub poll_exposure-Keeps :
    (e : DeliveryEndpoint) (key : DeliveryFlowKey) → IsValid e → Keeps (poll_exposure e key)
unfolding poll_exposure poll_in_mode
poll_exposure-Keeps e key v = elim (Bool-cases (is_outbound key.direction)) [
  | inl d ↦ (e, err wrong_direction, rw (d, poll_exposure) refl, v)
  | inr d ↦ elim (Option-cases (HashMap.get e.flows key)) [
    | inl h ↦ (e, err unknown_flow, rw (d, h, poll_exposure) refl, v)
    | inr (f, h) ↦
        let (e', r, s, v') = in_mode f f.mode h refl in (e', r, rw (d, h, poll_exposure) s, v')
  ]
]
  where
    in_mode :
        (f : FlowState) (m : DeliveryMode)
        → HashMap.get e.flows key ≡ some f
        → f.mode ≡ m
        → Keeps (poll_in_mode m e key f)
    in_mode f reliable_ordered h q = poll_reliable-Keeps e key f f.receiver v h refl (rw q refl)
    in_mode f unreliable_unordered h q =
        poll_unordered-Keeps e key f f.receiver v h refl (rw q refl)
    in_mode f unreliable_sequenced h q =
        poll_sequenced_exposure-Keeps e key f f.receiver v h refl (rw q refl)
