-- ===== src/Delivery/Terminating.antt =====
-- delivery.rs: a terminated flow leaves the count of every scope.
use runen_net.Prelude.{
  Result, ℕ, ◌+◌, ◌-◌, ◌≡◌, refl, sym, ◌∙◌, Bool, true, false, Option, none, some, if◌then◌else◌,
  ◌==◌, nat_eq, arith, Bool-cases, Option-cases, inl, inr, ok, err,
}
use runen_net.Collections.HashMap.{HashMap}
use runen_net.Collections.HashMap
use runen_net.Delivery.Types.{
  DeliveryFlowKey, flow_key_eq, ScopeUsage, ScopeState, FlowState, DeliveryEndpoint,
}
use runen_net.Delivery.Accounting.{DeliveryOperationError, usage_remove, unknown_flow}
use runen_net.Delivery.Flows.{
  FlowTermination, leave_scope, leave_session, terminate_flow, FlowTerminationReason, termination,
}
use runen_net.Delivery.Counting.{
  Flows, everywhere, on_connection, in_session, sum_where, IsUsage, IsWithin, IsScope,
}
use runen_net.Delivery.Changing.{scope_found}
use runen_net.Delivery.Invariant.{IsFlow, IsValid, Keeps}
use mathlib.Core.Path.{subst}

abbrev less : ScopeUsage → FlowState → ScopeUsage
less u f = record {
  active_flows = u.active_flows - 1;
  pending_messages = u.pending_messages - f.pending_messages;
  pending_payload_bytes = u.pending_payload_bytes - f.pending_payload_bytes;
}

module _ (covers : DeliveryFlowKey × FlowState → Bool) (m : Flows) (key : DeliveryFlowKey)
    (f : FlowState) (d : HashMap.Distinct m) (h : HashMap.get m key ≡ some f) where
  gone :
      (w : FlowState → ℕ)
      → covers (key, f) ≡ true
      → sum_where covers w (HashMap.remove m key) + w f ≡ sum_where covers w m
  gone w c = ground (arith, HashMap.sum_by-remove (λ x. if covers x then w x.1 else 0) m key f d h)

  untouched :
      (w : FlowState → ℕ)
      → covers (key, f) ≡ false
      → sum_where covers w (HashMap.remove m key) ≡ sum_where covers w m
  untouched w c =
      ground (arith, HashMap.sum_by-remove (λ x. if covers x then w x.1 else 0) m key f d h)

  less-IsUsage :
      (u : ScopeUsage)
      → covers (key, f) ≡ true
      → IsUsage covers m u
      → (usage_remove u 1 f.pending_messages f.pending_payload_bytes ≡ some (less u f))
        × IsUsage covers (HashMap.remove m key) (less u f)
  unfolding usage_remove
  less-IsUsage u c v = (
    ground (
      arith,
      gone (λ f. 1) c,
      gone (λ f. f.pending_messages) c,
      gone (λ f. f.pending_payload_bytes) c,
      v.active,
      v.messages,
      v.bytes,
    ),
    record {
      active = omega (arith, gone (λ f. 1) c, v.active);
      messages = omega (arith, gone (λ f. f.pending_messages) c, v.messages);
      bytes = omega (arith, gone (λ f. f.pending_payload_bytes) c, v.bytes);
    },
  )

  untouched-IsScope :
      (o : Option ScopeState)
      → covers (key, f) ≡ false
      → IsScope covers m o
      → IsScope covers (HashMap.remove m key) o
  untouched-IsScope none c v = untouched (λ f. 1) c ∙ v
  untouched-IsScope (some s) c v = (
    record {
      active = v.0.active ∙ sym (untouched (λ f. 1) c);
      messages = v.0.messages ∙ sym (untouched (λ f. f.pending_messages) c);
      bytes = v.0.bytes ∙ sym (untouched (λ f. f.pending_payload_bytes) c);
    },
    v.1,
  )

less-IsWithin :
    (s : ScopeState) (f : FlowState) → IsWithin s → IsWithin (record s { usage = less s.usage f })
less-IsWithin s f w = record {
  active = omega (arith, w.active);
  messages = omega (arith, w.messages);
  bytes = omega (arith, w.bytes);
}

-- The scopes of a map, of which one covers the flow that ends.
scopes_left :
    (covers : ℕ → DeliveryFlowKey × FlowState → Bool) (scopes : HashMap ℕ ScopeState) (m : Flows)
    (key : DeliveryFlowKey) (f : FlowState) (k : ℕ)
    → HashMap.Distinct m
    → HashMap.get m key ≡ some f
    → ((c : ℕ) → covers c (key, f) ≡ (k == c))
    → ((c : ℕ) → IsScope (covers c) m (HashMap.get scopes c))
    → (scopes' : HashMap ℕ ScopeState) × (leave_scope scopes k f.pending_messages
          f.pending_payload_bytes
        ≡ some scopes')
      × ((c : ℕ) → IsScope (covers c) (HashMap.remove m key) (HashMap.get scopes' c))
unfolding leave_scope
scopes_left covers scopes m key f k d h cf v =
    let own : covers k (key, f) ≡ true = cf k ∙ ground arith in
    let (s, hs) = scope_found (covers k) m key f (HashMap.get scopes k) h own (v k) in
    let scope = subst (IsScope (covers k) m) hs (v k) in
    let (removed, usage) = less-IsUsage (covers k) m key f d h s.usage own scope.0 in
    elim (Bool-cases ((less s.usage f).active_flows == 0)) [
      | inl z ↦ (
        HashMap.remove scopes k,
        rw (hs, removed, z, leave_scope) refl,
        λ c. elim (Bool-cases (k == c)) [
          | inl q ↦
              let here : HashMap.get (HashMap.remove scopes k) c ≡ none =
                ground (arith, HashMap.get-remove scopes k c) in
              subst (IsScope (covers c) (HashMap.remove m key)) (sym here) (
                subst (λ j. sum_where (covers j) (λ f. 1) (HashMap.remove m key) ≡ 0) (ground arith)
                  (sym usage.active ∙ ground arith))
          | inr q ↦
              let elsewhere : HashMap.get (HashMap.remove scopes k) c ≡ HashMap.get scopes c =
                ground (arith, HashMap.get-remove scopes k c) in
              subst (IsScope (covers c) (HashMap.remove m key)) (sym elsewhere)
                (untouched-IsScope (covers c) m key f d h (HashMap.get scopes c) (cf c ∙ q) (v c))
        ],
      )
      | inr z ↦ (
        HashMap.insert scopes k (record s { usage = less s.usage f }),
        rw (hs, removed, z, leave_scope) refl,
        λ c. elim (Bool-cases (k == c)) [
          | inl q ↦
              let here : HashMap.get (HashMap.insert scopes k (record s { usage = less s.usage f }))
                    c
                  ≡ some (record s { usage = less s.usage f }) =
                ground
                  (arith, HashMap.get-insert scopes k c (record s { usage = less s.usage f })) in
              subst (IsScope (covers c) (HashMap.remove m key)) (sym here) (
                subst (λ j. IsUsage (covers j) (HashMap.remove m key) (less s.usage f))
                    (ground arith) usage,
                less-IsWithin s f scope.1,
              )
          | inr q ↦
              let elsewhere : HashMap.get
                    (HashMap.insert scopes k (record s { usage = less s.usage f })) c
                  ≡ HashMap.get scopes c =
                ground
                  (arith, HashMap.get-insert scopes k c (record s { usage = less s.usage f })) in
              subst (IsScope (covers c) (HashMap.remove m key)) (sym elsewhere)
                (untouched-IsScope (covers c) m key f d h (HashMap.get scopes c) (cf c ∙ q) (v c))
        ],
      )
    ]

session_left :
    (sessions : HashMap ℕ ScopeState) (o : Option ℕ) (m : Flows) (key : DeliveryFlowKey)
    (f : FlowState)
    → HashMap.Distinct m
    → HashMap.get m key ≡ some f
    → f.session ≡ o
    → ((s : ℕ) → IsScope (in_session s) m (HashMap.get sessions s))
    → (sessions' : HashMap ℕ ScopeState) × (leave_session sessions o f.pending_messages
          f.pending_payload_bytes
        ≡ some sessions')
      × ((s : ℕ) → IsScope (in_session s) (HashMap.remove m key) (HashMap.get sessions' s))
session_left sessions none m key f d h q v = (
  sessions,
  refl,
  λ s. untouched-IsScope (in_session s) m key f d h (HashMap.get sessions s) (rw q refl) (v s),
)
session_left sessions (some id) m key f d h q v =
    scopes_left (λ s x. in_session s x) sessions m key f id d h (λ s. rw q refl) v

-- Termination of a flow of a valid endpoint does not panic, and leaves a valid endpoint.
pub terminate_flow-Keeps :
    (e : DeliveryEndpoint) (key : DeliveryFlowKey) (reason : FlowTerminationReason)
    → IsValid e
    → Keeps (terminate_flow e key reason)
unfolding terminate_flow
terminate_flow-Keeps e key reason v = elim (Option-cases (HashMap.get e.flows key)) [
  | inl h ↦ (e, err unknown_flow, rw (h, terminate_flow) refl, v)
  | inr (f, h) ↦
      let (removed, usage) =
        less-IsUsage everywhere e.flows key f v.counted.distinct h e.aggregate.usage refl
          v.counted.aggregate.0 in
      let (connections, q, vc) =
        scopes_left (λ c x. on_connection c x) e.connections e.flows key f key.connection
          v.counted.distinct h (λ c. refl) v.counted.connections in
      let (sessions, r, vs) =
        session_left e.sessions f.session e.flows key f v.counted.distinct h refl
          v.counted.sessions in
      (
        record e {
          flows = HashMap.remove e.flows key;
          aggregate = record { limits = e.aggregate.limits; usage = less e.aggregate.usage f };
          connections = connections;
          sessions = sessions;
        },
        ok (termination key f reason),
        rw (h, removed, q, r, terminate_flow) refl,
        record {
          counted = record {
            distinct = HashMap.remove-Distinct e.flows key v.counted.distinct;
            aggregate = (usage, less-IsWithin e.aggregate f v.counted.aggregate.1);
            connections = vc;
            sessions = vs;
          };
          flows = HashMap.All-remove IsFlow e.flows key v.flows;
        },
      )
]

-- A termination that does not panic leaves every other flow as it is.
pub terminate_flow-flows :
    (e e' : DeliveryEndpoint) (key : DeliveryFlowKey) (reason : FlowTerminationReason)
    (r : Result FlowTermination DeliveryOperationError)
    → terminate_flow e key reason ≡ some (e', r)
    → e'.flows ≡ HashMap.remove e.flows key
unfolding terminate_flow
terminate_flow-flows e e' key reason r p = ground (arith, HashMap.remove_absent e.flows key)
