-- ===== src/Delivery/Ending.antt =====
-- delivery.rs: the calls composed of others: an adapter's payload, the loss of reliable custody, and
-- the end of a connection, which terminates its flows in the order of direction and handle.
use runen_net.Prelude.{
  ℕ, refl, Bool, not, ◌&&◌, ◌||◌, Option, none, some, List, [], ◌∷◌, if◌then◌else◌, leb, nat_eq,
  ◌==◌, Result, ok, err, Option-cases, Bool-cases, inl, inr,
}
use runen_net.Collections.HashMap.{HashMap}
use runen_net.Collections.HashMap
use runen_net.Delivery.Types.{
  DeliveryFlowKey, flow_key_eq, is_outbound, FlowState, DeliveryEndpoint,
}
use runen_net.Delivery.Accounting.{
  DeliveryOperationError, unknown_flow, wrong_direction, not_reliable, Operation,
}
use runen_net.Delivery.Flows.{
  FlowTermination, connection_ended, reliable_custody_lost, terminate_flow, is_reliable,
}
use runen_net.Delivery.Receiving.{ReceiveOutcome, receive}
use runen_net.Delivery.Invariant.{IsValid, Keeps}
use runen_net.Delivery.Terminating.{terminate_flow-Keeps}
use runen_net.Delivery.Reception.{receive-Keeps}

unfoldable pub receive_transport_payload :
    DeliveryEndpoint → DeliveryFlowKey → ℕ → List ℕ → Operation ReceiveOutcome
receive_transport_payload e key index payload =
    if is_outbound key.direction
    then some (e, err wrong_direction)
    else elim (HashMap.get e.flows key) [
      | none ↦ some (e, err unknown_flow)
      | some f ↦ receive e key (record { mode = f.mode; accepted_index = index; payload = payload })
    ]

unfoldable pub fail_reliable_custody :
    DeliveryEndpoint → DeliveryFlowKey → Operation FlowTermination
fail_reliable_custody e key = elim (HashMap.get e.flows key) [
  | none ↦ some (e, err unknown_flow)
  | some f ↦
      if not (is_reliable f.mode)
      then some (e, err not_reliable)
      else terminate_flow e key reliable_custody_lost
]

abbrev pub keys_on : ℕ → HashMap DeliveryFlowKey FlowState → List DeliveryFlowKey
keys_on connection [] = []
keys_on connection ((key, f) ∷ flows) =
    let rest = keys_on connection flows in if key.connection == connection then key ∷ rest else rest

-- The order of the pairs of a direction, outbound first, and a handle.
abbrev pub ends_before : DeliveryFlowKey → DeliveryFlowKey → Bool
ends_before a b =
    is_outbound a.direction && not (is_outbound b.direction)
    || not (is_outbound b.direction && not (is_outbound a.direction)) && leb a.handle b.handle

abbrev pub insert_key : DeliveryFlowKey → List DeliveryFlowKey → List DeliveryFlowKey
insert_key a [] = a ∷ []
insert_key a (k ∷ keys) = if ends_before a k then a ∷ k ∷ keys else k ∷ insert_key a keys

abbrev pub sort_keys : List DeliveryFlowKey → List DeliveryFlowKey
sort_keys [] = []
sort_keys (k ∷ keys) = insert_key k (sort_keys keys)

abbrev pub with_termination :
    Result FlowTermination DeliveryOperationError → List FlowTermination → List FlowTermination
with_termination (ok t) ts = t ∷ ts
with_termination (err error) ts = ts

unfoldable pub end_flows :
    DeliveryEndpoint → List DeliveryFlowKey → Option (DeliveryEndpoint × List FlowTermination)
end_flows e [] = some (e, [])
end_flows e (key ∷ keys) = elim (terminate_flow e key connection_ended) [
  | none ↦ none
  | some (e', result) ↦ elim (end_flows e' keys) [
    | none ↦ none
    | some (last, ts) ↦ some (last, with_termination result ts)
  ]
]

unfoldable pub terminate_connection :
    DeliveryEndpoint → ℕ → Option (DeliveryEndpoint × List FlowTermination)
unfolding end_flows
terminate_connection e connection = end_flows e (sort_keys (keys_on connection e.flows))

pub receive_transport_payload-Keeps :
    (e : DeliveryEndpoint) (key : DeliveryFlowKey) (index : ℕ) (payload : List ℕ)
    → IsValid e
    → Keeps (receive_transport_payload e key index payload)
unfolding receive_transport_payload
receive_transport_payload-Keeps e key index payload v =
    elim (Bool-cases (is_outbound key.direction)) [
      | inl d ↦ (e, err wrong_direction, rw (d, receive_transport_payload) refl, v)
      | inr d ↦ elim (Option-cases (HashMap.get e.flows key)) [
        | inl h ↦ (e, err unknown_flow, rw (d, h, receive_transport_payload) refl, v)
        | inr (f, h) ↦
            let (e', a, q, w) =
              receive-Keeps e key
                (record { mode = f.mode; accepted_index = index; payload = payload }) v in
            (e', a, rw (d, h, receive_transport_payload) q, w)
      ]
    ]

pub fail_reliable_custody-Keeps :
    (e : DeliveryEndpoint) (key : DeliveryFlowKey) → IsValid e → Keeps (fail_reliable_custody e key)
unfolding fail_reliable_custody
fail_reliable_custody-Keeps e key v = elim (Option-cases (HashMap.get e.flows key)) [
  | inl h ↦ (e, err unknown_flow, rw (h, fail_reliable_custody) refl, v)
  | inr (f, h) ↦ elim (Bool-cases (is_reliable f.mode)) [
    | inr m ↦ (e, err not_reliable, rw (h, m, fail_reliable_custody) refl, v)
    | inl m ↦
        let (e', a, q, w) = terminate_flow-Keeps e key reliable_custody_lost v in
        (e', a, rw (h, m, fail_reliable_custody) q, w)
  ]
]

end_flows-Keeps :
    (keys : List DeliveryFlowKey) (e : DeliveryEndpoint) → IsValid e → Keeps (end_flows e keys)
unfolding end_flows
end_flows-Keeps [] e v = (e, [], refl, v)
end_flows-Keeps (key ∷ keys) e v =
    let (e', result, q, w) = terminate_flow-Keeps e key connection_ended v in
    let (last, ts, r, z) = end_flows-Keeps keys e' w in
    (last, with_termination result ts, rw (q, end_flows) (rw r refl), z)

pub terminate_connection-Keeps :
    (e : DeliveryEndpoint) (connection : ℕ) → IsValid e → Keeps (terminate_connection e connection)
unfolding terminate_connection
terminate_connection-Keeps e connection v =
    end_flows-Keeps (sort_keys (keys_on connection e.flows)) e v
