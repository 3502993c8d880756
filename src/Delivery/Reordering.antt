-- ===== src/Delivery/Reordering.antt =====
-- delivery.rs: transfers that arrive out of order for an inbound reliable flow of an endpoint.
use runen_net.Prelude.{
  ℕ, zero, suc, ◌+◌, ◌<◌, ◌≡◌, refl, sym, ap, ◌∙◌, true, false, Option, none, some, List, [], ◌∷◌,
  ◌++◌, map, nat_eq, is_some, arith, Option-cases, inl, inr, u64_mod,
}
use mathlib.Core.Path.{subst}
use mathlib.Core.Option.{some-injective}
use runen_net.Collections.BTreeMap.{BTreeMap}
use runen_net.Collections.BTreeMap
use runen_net.Collections.HashMap
use runen_net.Delivery.Types.{
  DeliveryFlowKey, flow_key_eq, is_outbound, DeliveryTransfer, DeliveryEndpoint,
}
use runen_net.Delivery.Receiving.{receive}
use runen_net.Delivery.Exposure.{ExposedMessage, exposed, take_expected}
use runen_net.Delivery.Arrival.{ended, stored, receive-Stores}
use runen_net.Delivery.Ordering.{
  Event, arrives, polls, store, is_conflict, exposures, IsFrom, exposures-IsFrom, first_with,
  wanted, repeated_polls, stored-IsSorted, get-stored, repeated_polls-wanted,
}
use runen_net.Delivery.Ordering
use runen_net.Delivery.Delivering.{
  deliveries, IsReceiving, poll_exposure-takes, poll_exposure-waits,
}

-- The endpoint after some transfers have arrived for a flow.
unfoldable pub arrived :
    DeliveryEndpoint → DeliveryFlowKey → List DeliveryTransfer → Option DeliveryEndpoint
arrived e key [] = some e
arrived e key (transfer ∷ transfers) = elim (receive e key transfer) [
  | none ↦ none
  | some (e', outcome) ↦ arrived e' key transfers
]

arrived-gone :
    (ts : List DeliveryTransfer) (e : DeliveryEndpoint) (key : DeliveryFlowKey)
    → is_outbound key.direction ≡ false
    → HashMap.get e.flows key ≡ none
    → arrived e key ts ≡ some e
unfolding arrived receive
arrived-gone [] e key d h = refl
arrived-gone (t ∷ ts) e key d h = rw (arrived, receive, d, h) (arrived-gone ts e key d h)

-- With the flow still there, all that arrived is in its buffer.
arrived-IsReceiving :
    (ts : List DeliveryTransfer) (e e1 : DeliveryEndpoint) (key : DeliveryFlowKey)
    (m : BTreeMap DeliveryTransfer)
    → IsReceiving e key m (some 0)
    → arrived e key ts ≡ some e1
    → is_some (HashMap.get e1.flows key) ≡ true
    → IsReceiving e1 key (Ordering.stored m ts) (some 0)
unfolding arrived
arrived-IsReceiving [] e e1 key m r h s =
    subst (λ x. IsReceiving x key m (some 0)) (some-injective _ _ h) r
arrived-IsReceiving (t ∷ ts) e e1 key m r h s =
    let (e', a, q, valid, left) =
      receive-Stores e key r.flow m (some 0) t r.valid r.incoming r.found r.buffer in
    let later : arrived e' key ts ≡ some e1 = sym (unfold arrived in rw (arrived, q) refl) ∙ h in
    elim left [
      | ended g ↦ absurd (ground (arith, arrived-gone ts e' key r.incoming g, later))
      | stored f' g b c ↦
          arrived-IsReceiving ts e' e1 key (store m (some 0) t)
            (record { flow = f'; valid = valid; incoming = r.incoming; found = g; buffer = b })
            later s
    ]

-- Arrivals come before what follows them.
deliveries-arrived :
    (ts : List DeliveryTransfer) (events : List Event) (e e1 : DeliveryEndpoint)
    (key : DeliveryFlowKey)
    → arrived e key ts ≡ some e1
    → deliveries e key (map arrives ts ++ events) ≡ deliveries e1 key events
unfolding deliveries arrived
deliveries-arrived [] events e e1 key h = ap (λ x. deliveries x key events) (some-injective _ _ h)
deliveries-arrived (t ∷ ts) events e e1 key h = elim (Option-cases (receive e key t)) [
  | inl q ↦ absurd (ground (arith, q))
  | inr ((e', a), q) ↦
      rw (deliveries, q) (deliveries-arrived ts events e' e1 key (sym (rw (arrived, q) refl) ∙ h))
]

-- Polls alone expose what the buffer by itself exposes.
deliveries-repeated_polls :
    (k : ℕ) (e : DeliveryEndpoint) (key : DeliveryFlowKey) (m : BTreeMap DeliveryTransfer)
    (next : Option ℕ)
    → IsReceiving e key m next
    → deliveries e key (repeated_polls k) ≡ some (map exposed (exposures m next (repeated_polls k)))
unfolding deliveries exposures
deliveries-repeated_polls zero e key m next r = refl
deliveries-repeated_polls (suc k) e key m next r = elim (Option-cases (take_expected m next)) [
  | inl h ↦
      rw
        (
          deliveries,
          poll_exposure-waits e key m next r h,
          deliveries-repeated_polls k e key m next r,
          h,
          exposures,
        )
        refl
  | inr ((t, rest, next'), h) ↦
      let (e', q, r') = poll_exposure-takes e key m next t rest next' r h in
      rw (deliveries, q, deliveries-repeated_polls k e' key rest next' r', h, exposures) refl
]

-- The messages with the indices from `n` on, each as it arrived first.
abbrev pub message_of : Option DeliveryTransfer → Option ExposedMessage
message_of none = none
message_of (some t) = some (exposed t)

abbrev pub wanted_messages : ℕ → ℕ → List DeliveryTransfer → List (Option ExposedMessage)
wanted_messages n zero ts = []
wanted_messages n (suc k) ts = message_of (first_with n ts) ∷ wanted_messages (n + 1) k ts

wanted-messages :
    (n k : ℕ) (ts : List DeliveryTransfer) → map message_of (wanted n k ts) ≡ wanted_messages n k ts
wanted-messages n zero ts = refl
wanted-messages n (suc k) ts =
    ap (◌∷◌ (message_of (first_with n ts))) (wanted-messages (n + 1) k ts)

some-exposed :
    (ts : List DeliveryTransfer) → map some (map exposed ts) ≡ map message_of (map some ts)
some-exposed [] = refl
some-exposed (t ∷ ts) = ap (◌∷◌ (some (exposed t))) (some-exposed ts)

-- On a valid endpoint, transfers arrive for an inbound reliable flow with a new buffer in any order and
-- with any repeats, and the flow is still there: if the indices below `k` are among them, then `k`
-- polls give the application exactly those messages, by index, each as it arrived first.
pub reordered_exposures :
    (ts : List DeliveryTransfer) (k : ℕ) (e e1 : DeliveryEndpoint) (key : DeliveryFlowKey)
    → IsReceiving e key [] (some 0)
    → arrived e key ts ≡ some e1
    → is_some (HashMap.get e1.flows key) ≡ true
    → k < u64_mod
    → ((i : ℕ) → i < k → is_some (first_with i ts) ≡ true)
    → (messages : List ExposedMessage) × (deliveries e key (map arrives ts ++ repeated_polls k)
        ≡ some messages)
      × (map some messages ≡ wanted_messages 0 k ts)
unfolding BTreeMap.get
reordered_exposures ts k e e1 key r a there b h =
    let r1 = arrived-IsReceiving ts e e1 key [] r a there in
    let m = Ordering.stored [] ts in
    (
      map exposed (exposures m (some 0) (repeated_polls k)),
      deliveries-arrived ts (repeated_polls k) e e1 key a
          ∙ deliveries-repeated_polls k e1 key m (some 0) r1,
      some-exposed (exposures m (some 0) (repeated_polls k))
          ∙ ap (map message_of) (
              repeated_polls-wanted k 0 m ts (stored-IsSorted [] ts tt) (omega arith)
                (λ i q. get-stored [] ts i) (λ i q s. h i (omega arith)))
          ∙ wanted-messages 0 k ts,
    )
