-- ===== src/Delivery/Submission.antt =====
-- delivery.rs: submission, eviction and custody keep the invariant, and do not panic.
use runen_net.Prelude.{
  ℕ, ◌+◌, ◌≡◌, refl, ◌∙◌, Bool, true, some, List, [], ◌∷◌, ◌++◌, ltb, ◌==◌, nat_eq, length,
  length-append, sum_by, sum_by-append, saturating_add, checked_add, arith, Bool-cases,
  Option-cases, inl, inr, ok, err,
}
use runen_net.Collections.HashMap
use runen_net.Delivery.Types.{
  DeliveryFlowKey, flow_key_eq, is_outbound, OutboundPressureBehavior, reject_new,
  evict_oldest_unreliable, DeliveryTransfer, payload_len, FlowState, DeliveryEndpoint,
}
use runen_net.Delivery.Accounting.{
  can_add_pending, remove_pending, put_flow, unknown_flow, wrong_direction,
}
use runen_net.Delivery.Pending.{can_add_pending-some, can_add_pending-Fits}
use runen_net.Delivery.Pressure.{with_outbound, evict_until_fits}
use runen_net.Delivery.Sending.{
  submitted, rejected_too_large, rejected_pressure, rejected_counter_exhausted, note_outbound_drops,
  enqueue, under_pressure, submit, no_pending_message, not_front, unknown_custody_flow,
  wrong_custody_direction, commit_front, commit_outbound_custody,
}
use runen_net.Delivery.Invariant.{
  IsFlow, IsValid, Keeps, noted-IsValid, hold_message, release_message, held_count, held_bytes,
}
use mathlib.Core.Path.{subst}

-- A queue of a flow, from which messages can be released.
module _ (key : DeliveryFlowKey) (with_queue : FlowState → List DeliveryTransfer → FlowState)
    (Holds : FlowState → List DeliveryTransfer → Type 0) where
  abbrev pub IsReleasable : Type 0
  IsReleasable =
      (e : DeliveryEndpoint) (f : FlowState) (t : DeliveryTransfer) (queue : List DeliveryTransfer)
      → IsValid e
      → HashMap.get e.flows key ≡ some f
      → Holds f (t ∷ queue)
      → (e' : DeliveryEndpoint) × (remove_pending (put_flow e key (with_queue f queue)) key 1
            (payload_len t)
          ≡ some e')
        × IsValid e'
        × (f' : FlowState) × (HashMap.get e'.flows key ≡ some f')
        × Holds f' queue

  -- The eviction loop ends in a valid endpoint that still has the flow, and is right on whether it fits.
  pub evict_until_fits-IsValid :
      (queue : List DeliveryTransfer) (e : DeliveryEndpoint) (f : FlowState) (bytes drops : ℕ)
      → IsReleasable
      → IsValid e
      → HashMap.get e.flows key ≡ some f
      → Holds f queue
      → (e' : DeliveryEndpoint) × (drops' : ℕ) × (fits : Bool) × (evict_until_fits with_queue queue
            e key bytes drops
          ≡ some (e', drops', fits))
        × IsValid e'
        × (f' : FlowState) × (HashMap.get e'.flows key ≡ some f')
        × (can_add_pending e' key f' 1 bytes ≡ some fits)
        × (rest : List DeliveryTransfer) × Holds f' rest
  unfolding evict_until_fits
  evict_until_fits-IsValid [] e f bytes drops release v h q =
      let (fits, c) = can_add_pending-some e key f bytes v.counted h in
      (e, drops, fits, rw (h, c, evict_until_fits) refl, v, f, h, c, [], q)
  evict_until_fits-IsValid (oldest ∷ queue) e f bytes drops release v h q =
      let (fits, c) = can_add_pending-some e key f bytes v.counted h in
      let (e', r, v', f', h', q') = release e f oldest queue v h q in
      let (e'', drops', fits', s, v'', f'', h'', c'', rest, q'') =
        evict_until_fits-IsValid queue e' f' bytes (saturating_add drops 1) release v' h' q' in
      elim (Bool-cases fits) [
        | inl b ↦ (
          e,
          drops,
          true,
          rw (h, c, b, evict_until_fits) refl,
          v,
          f,
          h,
          c ∙ rw b refl,
          oldest ∷ queue,
          q,
        )
        | inr b ↦
            (e'', drops', fits', rw (h, c, b, r, evict_until_fits) s, v'', f'', h'', c'', rest, q'')
      ]

abbrev HoldsOutbound : FlowState → List DeliveryTransfer → Type 0
HoldsOutbound f queue = f.outbound ≡ queue

outbound-IsReleasable : (key : DeliveryFlowKey) → IsReleasable key with_outbound HoldsOutbound
outbound-IsReleasable key e f t queue v h q =
    let flow = HashMap.All-get IsFlow e.flows key f v.flows h in
    let count : f.pending_messages ≡ length (t ∷ queue) + held_count f.receiver =
      subst (λ o. f.pending_messages ≡ length o + held_count f.receiver) q flow.messages in
    let bytes : f.pending_payload_bytes ≡ sum_by payload_len (t ∷ queue) + held_bytes f.receiver =
      subst (λ o. f.pending_payload_bytes ≡ sum_by payload_len o + held_bytes f.receiver) q
        flow.bytes in
    let (e', r, v', g) =
      release_message e key f f.next_accepted_index queue f.receiver (payload_len t) v h
        (omega (arith, count)) (omega (arith, bytes))
        (record {
          messages = omega (arith, count);
          bytes = omega (arith, bytes);
          buffer = flow.buffer;
          policy = flow.policy;
        }) in
    (e', r, v', _, g, refl)

enqueue-Keeps :
    (e : DeliveryEndpoint) (key : DeliveryFlowKey) (f : FlowState) (t : DeliveryTransfer)
    (drops : ℕ)
    → IsValid e
    → HashMap.get e.flows key ≡ some f
    → can_add_pending e key f 1 (payload_len t) ≡ some true
    → Keeps (enqueue e key t drops)
unfolding enqueue
enqueue-Keeps e key f t drops v h c =
    let flow = HashMap.All-get IsFlow e.flows key f v.flows h in
    let (e', q, v', g) =
      hold_message e key f (checked_add t.accepted_index 1) (f.outbound ++ (t ∷ [])) f.receiver
        (payload_len t) v h (can_add_pending-Fits e key f (payload_len t) c)
        (record {
          messages = omega (arith, flow.messages, length-append f.outbound (t ∷ []));
          bytes = omega (arith, flow.bytes, sum_by-append payload_len f.outbound (t ∷ []));
          buffer = flow.buffer;
          policy = flow.policy;
        }) in
    elim (Bool-cases (ltb 0 drops)) [
      | inl b ↦ (
        note_outbound_drops e' drops,
        ok (submitted t.accepted_index drops),
        rw (h, q, b, enqueue) refl,
        noted-IsValid e' (note_outbound_drops e' drops).diagnostics v',
      )
      | inr b ↦ (e', ok (submitted t.accepted_index drops), rw (h, q, b, enqueue) refl, v')
    ]

under_pressure-Keeps :
    (p : OutboundPressureBehavior) (e : DeliveryEndpoint) (key : DeliveryFlowKey) (f : FlowState)
    (t : DeliveryTransfer)
    → IsValid e
    → HashMap.get e.flows key ≡ some f
    → Keeps (under_pressure p e key f t)
unfolding under_pressure
under_pressure-Keeps reject_new e key f t v h = (e, ok rejected_pressure, refl, v)
under_pressure-Keeps evict_oldest_unreliable e key f t v h =
    let (e', drops, fits, q, v', f', h', c, rest, held) =
      evict_until_fits-IsValid key with_outbound HoldsOutbound f.outbound e f (payload_len t) 0
        (outbound-IsReleasable key) v h refl in
    elim (Bool-cases fits) [
      | inl b ↦
          let (e'', r, s, v'') = enqueue-Keeps e' key f' t drops v' h' (c ∙ rw b refl) in
          (e'', r, rw (q, b, under_pressure) s, v'')
      | inr b ↦ (e', ok rejected_pressure, rw (q, b, under_pressure) refl, v')
    ]

-- A submission to a valid endpoint does not panic, whatever the flow, its counter and the pressure, and
-- leaves a valid endpoint: every scope counts what its flows hold, within its limits.
pub submit-Keeps :
    (e : DeliveryEndpoint) (key : DeliveryFlowKey) (payload : List ℕ)
    → IsValid e
    → Keeps (submit e key payload)
unfolding submit
submit-Keeps e key payload v = elim (Option-cases (HashMap.get e.flows key)) [
  | inl h ↦ (e, err unknown_flow, rw (h, submit) refl, v)
  | inr (f, h) ↦ elim (Bool-cases (is_outbound key.direction)) [
    | inr d ↦ (e, err wrong_direction, rw (h, d, submit) refl, v)
    | inl d ↦ elim (Bool-cases (ltb f.policy.max_message_bytes (length payload))) [
      | inl l ↦ (e, ok rejected_too_large, rw (h, d, l, submit) refl, v)
      | inr l ↦ elim (Option-cases f.next_accepted_index) [
        | inl n ↦ (e, ok rejected_counter_exhausted, rw (h, d, l, n, submit) refl, v)
        | inr (index, n) ↦
            let t : DeliveryTransfer = record {
              mode = f.mode;
              accepted_index = index;
              payload = payload;
            } in
            let (fits, c) = can_add_pending-some e key f (length payload) v.counted h in
            elim (Bool-cases fits) [
              | inl b ↦
                  let (e', r, s, v') = enqueue-Keeps e key f t 0 v h (c ∙ rw b refl) in
                  (e', r, rw (h, d, l, n, c, b, submit) s, v')
              | inr b ↦
                  let (e', r, s, v') =
                    under_pressure-Keeps f.policy.outbound_pressure e key f t v h in
                  (e', r, rw (h, d, l, n, c, b, submit) s, v')
            ]
      ]
    ]
  ]
]

commit_front-Keeps :
    (e : DeliveryEndpoint) (key : DeliveryFlowKey) (f : FlowState) (queue : List DeliveryTransfer)
    (index : ℕ)
    → IsValid e
    → HashMap.get e.flows key ≡ some f
    → f.outbound ≡ queue
    → Keeps (commit_front e key f queue index)
unfolding commit_front
commit_front-Keeps e key f [] index v h q = (e, err no_pending_message, refl, v)
commit_front-Keeps e key f (t ∷ queue) index v h q = elim (Bool-cases (t.accepted_index == index)) [
  | inr b ↦ (e, err not_front, rw (b, commit_front) refl, v)
  | inl b ↦
      let (e', r, v', f', h', q') = outbound-IsReleasable key e f t queue v h q in
      (e', ok t, rw (b, r, commit_front) refl, v')
]

pub commit_outbound_custody-Keeps :
    (e : DeliveryEndpoint) (key : DeliveryFlowKey) (index : ℕ)
    → IsValid e
    → Keeps (commit_outbound_custody e key index)
unfolding commit_outbound_custody
commit_outbound_custody-Keeps e key index v = elim (Bool-cases (is_outbound key.direction)) [
  | inr d ↦ (e, err wrong_custody_direction, rw (d, commit_outbound_custody) refl, v)
  | inl d ↦ elim (Option-cases (HashMap.get e.flows key)) [
    | inl h ↦ (e, err unknown_custody_flow, rw (d, h, commit_outbound_custody) refl, v)
    | inr (f, h) ↦
        let (e', r, s, v') = commit_front-Keeps e key f f.outbound index v h refl in
        (e', r, rw (d, h, commit_outbound_custody) s, v')
  ]
]
