-- ===== src/Delivery/Ended.antt =====
-- delivery.rs: what the end of a connection leaves.
use runen_net.Prelude.{
  ℕ, ◌≡◌, refl, Bool, true, false, ◌||◌, ◌==◌, none, some, List, [], ◌∷◌, if◌then◌else◌,
  Option-cases, inl, inr, arith, nat_eq,
}
use runen_net.Collections.HashMap
use runen_net.Delivery.Types.{
  DeliveryFlowKey, flow_key_eq, FlowState, DeliveryScopeLimits, DeliveryEndpoint, new_endpoint,
}
use runen_net.Delivery.Flows.{FlowTermination, connection_ended, terminate_flow}
use runen_net.Delivery.Ending.{
  end_flows, insert_key, sort_keys, keys_on, terminate_connection, terminate_connection-Keeps,
}
use runen_net.Delivery.Terminating.{terminate_flow-flows}
use runen_net.Delivery.History.{Call, run, run-new_endpoint-IsValid}

abbrev has_key : List DeliveryFlowKey → DeliveryFlowKey → Bool
has_key [] j = false
has_key (k ∷ keys) j = k == j || has_key keys j

end_flows-get :
    (keys : List DeliveryFlowKey) (e e' : DeliveryEndpoint) (ts : List FlowTermination)
    (j : DeliveryFlowKey)
    → end_flows e keys ≡ some (e', ts)
    → HashMap.get e'.flows j ≡ (if has_key keys j then none else HashMap.get e.flows j)
unfolding end_flows
end_flows-get [] e e' ts j p = ground arith
end_flows-get (key ∷ keys) e e' ts j p =
    elim (Option-cases (terminate_flow e key connection_ended)) [
      | inl h ↦ ground arith
      | inr ((e1, r), h) ↦ elim (Option-cases (end_flows e1 keys)) [
        | inl g ↦ ground arith
        | inr ((e2, ts'), g) ↦
            let q = end_flows-get keys e1 e2 ts' j g in
            let w = terminate_flow-flows e e1 key connection_ended r h in
            let z = HashMap.get-remove e.flows key j in ground (arith, q, w, z)
      ]
    ]

has_key-insert_key :
    (a : DeliveryFlowKey) (keys : List DeliveryFlowKey) (j : DeliveryFlowKey)
    → has_key (insert_key a keys) j ≡ (a == j || has_key keys j)
has_key-insert_key a [] j = refl
has_key-insert_key a (k ∷ keys) j = ground (arith, has_key-insert_key a keys j)

has_key-sort_keys :
    (keys : List DeliveryFlowKey) (j : DeliveryFlowKey)
    → has_key (sort_keys keys) j ≡ has_key keys j
has_key-sort_keys [] j = refl
has_key-sort_keys (k ∷ keys) j =
    ground (arith, has_key-insert_key k (sort_keys keys) j, has_key-sort_keys keys j)

has_key-keys_on :
    (c : ℕ) (m : HashMap.HashMap DeliveryFlowKey FlowState) (j : DeliveryFlowKey)
    → (j.connection == c) ≡ false
    → has_key (keys_on c m) j ≡ false
has_key-keys_on c [] j h = refl
has_key-keys_on c ((key, f) ∷ m) j h =
    ground (arith, has_key-keys_on c m j, flow_key_eq.same_iff key j)

get-unlisted :
    (c : ℕ) (m : HashMap.HashMap DeliveryFlowKey FlowState) (j : DeliveryFlowKey)
    → (j.connection == c) ≡ true
    → has_key (keys_on c m) j ≡ false
    → HashMap.get m j ≡ none
unfolding HashMap.get
get-unlisted c [] j h p = refl
get-unlisted c ((key, f) ∷ m) j h p = ground (arith, get-unlisted c m j, flow_key_eq.same_iff key j)

terminate_connection-get :
    (e e' : DeliveryEndpoint) (connection : ℕ) (ts : List FlowTermination) (j : DeliveryFlowKey)
    → terminate_connection e connection ≡ some (e', ts)
    → HashMap.get e'.flows j ≡ (if j.connection == connection then none else HashMap.get e.flows j)
unfolding terminate_connection
terminate_connection-get e e' connection ts j p =
    let keys = keys_on connection e.flows in
    ground (
      arith,
      end_flows-get (sort_keys keys) e e' ts j p,
      has_key-sort_keys keys j,
      has_key-keys_on connection e.flows j,
      get-unlisted connection e.flows j,
    )

-- After any history on a new endpoint, the end of a connection runs without a panic: afterwards no
-- flow of that connection is left, and every other flow is as it was.
pub terminate_connection-run :
    (limits : DeliveryScopeLimits) (calls : List Call) (connection : ℕ) (j : DeliveryFlowKey)
    → (e : DeliveryEndpoint) × (e' : DeliveryEndpoint) × (ts : List FlowTermination) × (run
          (new_endpoint limits)
          calls
        ≡ some e)
      × (terminate_connection e connection ≡ some (e', ts))
      × (HashMap.get e'.flows j
          ≡ (if j.connection == connection then none else HashMap.get e.flows j))
terminate_connection-run limits calls connection j =
    let (e, q, v) = run-new_endpoint-IsValid limits calls in
    let (e', ts, r, w) = terminate_connection-Keeps e connection v in
    (e, e', ts, q, r, terminate_connection-get e e' connection ts j r)
