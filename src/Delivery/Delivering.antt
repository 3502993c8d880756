-- ===== src/Delivery/Delivering.antt =====
-- delivery.rs: what the application gets from an inbound reliable flow of an endpoint, through
-- `receive` and `poll_exposure`.
use runen_net.Prelude.{
  ℕ, ◌+◌, ◌≡◌, refl, sym, ap, ◌∙◌, false, Option, none, some, List, [], ◌∷◌, map, nat_eq,
  Option-cases, inl, inr, Result, ok, err,
}
use runen_net.Collections.BTreeMap.{BTreeMap}
use runen_net.Collections.HashMap
use runen_net.Delivery.Types.{
  DeliveryFlowKey, flow_key_eq, is_outbound, DeliveryTransfer, ReceiverBuffer, FlowState,
  DeliveryEndpoint,
}
use runen_net.Delivery.Accounting.{DeliveryOperationError}
use runen_net.Delivery.Receiving.{receive}
use runen_net.Delivery.Exposure.{
  ExposedMessage, exposed, take_expected, poll_reliable_exposure, poll_in_mode, poll_exposure,
}
use runen_net.Delivery.Invariant.{IsFlow, IsValid}
use runen_net.Delivery.Polling.{at_buffer, poll_reliable-takes}
use runen_net.Delivery.Arrival.{ended, stored, receive-Stores, reliable_mode}
use runen_net.Delivery.Ordering.{Event, arrives, polls, store, exposures, IsFrom, exposures-IsFrom}

abbrev pub with_message :
    Result (Option ExposedMessage) DeliveryOperationError
    → List ExposedMessage
    → List ExposedMessage
with_message (ok (some message)) messages = message ∷ messages
with_message (ok none) messages = messages
with_message (err error) messages = messages

-- What a flow exposes along a history of transfers that arrive and polls of the application; `none`
-- is a panic.
unfoldable pub deliveries :
    DeliveryEndpoint → DeliveryFlowKey → List Event → Option (List ExposedMessage)
deliveries e key [] = some []
deliveries e key (arrives transfer ∷ events) = elim (receive e key transfer) [
  | none ↦ none
  | some (e', outcome) ↦ deliveries e' key events
]
deliveries e key (polls ∷ events) = elim (poll_exposure e key) [
  | none ↦ none
  | some (e', answer) ↦ elim (deliveries e' key events) [
    | none ↦ none
    | some messages ↦ some (with_message answer messages)
  ]
]

-- An inbound flow with a reliable buffer.
pub record IsReceiving (e : DeliveryEndpoint) (key : DeliveryFlowKey)
    (m : BTreeMap DeliveryTransfer) (next : Option ℕ) : Type 0 where
  pub flow : FlowState
  pub valid : IsValid e
  pub incoming : is_outbound key.direction ≡ false
  pub found : HashMap.get e.flows key ≡ some flow
  pub buffer : flow.receiver ≡ ReceiverBuffer.reliable m next

poll_in_reliable :
    (e : DeliveryEndpoint) (key : DeliveryFlowKey) (m : BTreeMap DeliveryTransfer) (next : Option ℕ)
    (r : IsReceiving e key m next)
    → poll_exposure e key ≡ poll_reliable_exposure e key r.flow (ReceiverBuffer.reliable m next)
unfolding poll_exposure poll_in_mode
poll_in_reliable e key m next r =
    let f = r.flow in
    let (count, bytes, kind) =
      at_buffer f (ReceiverBuffer.reliable m next)
        (HashMap.All-get IsFlow e.flows key f r.valid.flows r.found) r.buffer in
    rw (r.incoming, r.found, poll_exposure)
      (ap (λ x. poll_in_mode x e key f) (reliable_mode f.mode (sym kind))
        ∙ ap (λ x. poll_reliable_exposure e key f x) r.buffer)

-- A poll exposes what the buffer is next to expose, and takes it out.
pub poll_exposure-takes :
    (e : DeliveryEndpoint) (key : DeliveryFlowKey) (m : BTreeMap DeliveryTransfer) (next : Option ℕ)
    (t : DeliveryTransfer) (rest : BTreeMap DeliveryTransfer) (next' : Option ℕ)
    → IsReceiving e key m next
    → take_expected m next ≡ some (t, rest, next')
    → (e' : DeliveryEndpoint) × (poll_exposure e key ≡ some (e', ok (some (exposed t))))
      × IsReceiving e' key rest next'
poll_exposure-takes e key m next t rest next' r h =
    let (e', q, valid, f', g, b) =
      poll_reliable-takes e key r.flow m next t rest next' r.valid r.found r.buffer h in
    (
      e',
      poll_in_reliable e key m next r ∙ q,
      record { flow = f'; valid = valid; incoming = r.incoming; found = g; buffer = b },
    )

-- A poll of a buffer that has nothing to expose yet changes nothing.
pub poll_exposure-waits :
    (e : DeliveryEndpoint) (key : DeliveryFlowKey) (m : BTreeMap DeliveryTransfer) (next : Option ℕ)
    → IsReceiving e key m next
    → take_expected m next ≡ none
    → poll_exposure e key ≡ some (e, ok none)
unfolding poll_reliable_exposure
poll_exposure-waits e key m next r h =
    poll_in_reliable e key m next r ∙ rw (h, poll_reliable_exposure) refl

-- A flow that is gone exposes nothing.
deliveries-gone :
    (events : List Event) (e : DeliveryEndpoint) (key : DeliveryFlowKey)
    → is_outbound key.direction ≡ false
    → HashMap.get e.flows key ≡ none
    → deliveries e key events ≡ some []
unfolding deliveries receive poll_exposure
deliveries-gone [] e key d h = refl
deliveries-gone (arrives t ∷ events) e key d h =
    rw (deliveries, receive, d, h) (deliveries-gone events e key d h)
deliveries-gone (polls ∷ events) e key d h =
    rw (deliveries, poll_exposure, d, h, deliveries-gone events e key d h) refl

-- A flow exposes what its buffer by itself exposes of the events until the flow ends.
deliveries-exposures :
    (events : List Event) (e : DeliveryEndpoint) (key : DeliveryFlowKey)
    (m : BTreeMap DeliveryTransfer) (next : Option ℕ)
    → IsReceiving e key m next
    → (seen : List Event) × (deliveries e key events ≡ some (map exposed (exposures m next seen)))
unfolding deliveries exposures
deliveries-exposures [] e key m next r = ([], refl)
deliveries-exposures (arrives t ∷ events) e key m next r =
    let (e', a, q, valid, left) =
      receive-Stores e key r.flow m next t r.valid r.incoming r.found r.buffer in
    elim left [
      | ended g ↦ ([], rw (deliveries, q) (deliveries-gone events e' key r.incoming g))
      | stored f' g b c ↦
          let (seen, d) =
            deliveries-exposures events e' key (store m next t) next
              (record { flow = f'; valid = valid; incoming = r.incoming; found = g; buffer = b }) in
          (arrives t ∷ seen, rw (deliveries, q) (rw (c, exposures) d))
    ]
deliveries-exposures (polls ∷ events) e key m next r = elim (Option-cases (take_expected m next)) [
  | inl h ↦
      let (seen, d) = deliveries-exposures events e key m next r in
      (polls ∷ seen, rw (deliveries, poll_exposure-waits e key m next r h, d, h, exposures) refl)
  | inr ((t, rest, next'), h) ↦
      let (e', q, r') = poll_exposure-takes e key m next t rest next' r h in
      let (seen, d) = deliveries-exposures events e' key rest next' r' in
      (polls ∷ seen, rw (deliveries, q, d, h, exposures) refl)
]

-- Consecutive indices from `n` on.
abbrev pub IsInOrder : ℕ → List ExposedMessage → Type 0
IsInOrder n [] = Unit
IsInOrder n (message ∷ messages) = (message.accepted_index ≡ n) × IsInOrder (n + 1) messages

exposed-IsInOrder :
    (n : ℕ) (ts : List DeliveryTransfer) → IsFrom n ts → IsInOrder n (map exposed ts)
exposed-IsInOrder n [] h = tt
exposed-IsInOrder n (t ∷ ts) h = (h.0, exposed-IsInOrder (n + 1) ts h.1)

-- On a valid endpoint, along any history of transfers that arrive for an inbound reliable flow with a
-- new buffer and of polls of it, in any order and with any repeats or conflicts, nothing panics, and
-- the messages that the application gets have the indices 0, 1, 2 and so on: none is skipped, and
-- none comes twice.
pub deliveries-IsInOrder :
    (events : List Event) (e : DeliveryEndpoint) (key : DeliveryFlowKey)
    → IsReceiving e key [] (some 0)
    → (messages : List ExposedMessage) × (deliveries e key events ≡ some messages)
      × IsInOrder 0 messages
deliveries-IsInOrder events e key r =
    let (seen, d) = deliveries-exposures events e key [] (some 0) r in
    (_, d, exposed-IsInOrder 0 (exposures [] (some 0) seen) (exposures-IsFrom seen [] 0 tt))
