-- ===== src/Delivery/Association.antt =====
-- delivery.rs: association with a session keeps the invariant, and does not panic.
use runen_net.Prelude.{
  ℕ, ◌+◌, ◌≡◌, refl, sym, ◌∙◌, Bool, false, Option, none, some, if◌then◌else◌, ◌==◌, nat_eq, arith,
  Bool-cases, Option-cases, inl, inr, Result, ok, err,
}
use runen_net.Collections.HashMap
use runen_net.Session.State.{Session, is_open}
use runen_net.Delivery.Types.{
  DeliveryFlowKey, flow_key_eq, DeliveryScopeLimits, ScopeState, FlowState, DeliveryEndpoint,
}
use runen_net.Delivery.Flows.{
  SessionAssociationOutcome, associated, already_associated, SessionAssociationError,
  unknown_associated_flow, session_closed, already_associated_with_different_session,
  session_limits_mismatch, resource_limit_exceeded, limits_beq, scope_takes, mismatches,
  reassociate, associate, associate_flow_with_session,
}
use runen_net.Delivery.Counting.{
  Flows, everywhere, on_connection, in_session, is_session, sum_where, IsUsage, IsScope,
}
use runen_net.Delivery.Changing.{scope_found}
use runen_net.Delivery.Invariant.{IsFlow, IsValid, Keeps, same_sum}
use runen_net.Delivery.Joining.{scopes_joined}

abbrev joined : FlowState → ℕ → FlowState
joined f id = record f { session = some id }

unmoved-IsUsage :
    (covers : DeliveryFlowKey × FlowState → Bool) (m : Flows) (key : DeliveryFlowKey)
    (f : FlowState) (id : ℕ) (s : ScopeState)
    → HashMap.get m key ≡ some f
    → covers (key, f) ≡ covers (key, joined f id)
    → IsUsage covers m s.usage
    → IsUsage covers (HashMap.insert m key (joined f id)) s.usage
unmoved-IsUsage covers m key f id s h c v = record {
  active = v.active ∙ sym (same_sum covers (λ f. 1) m key f (joined f id) h c refl);
  messages =
      v.messages ∙ sym (same_sum covers (λ f. f.pending_messages) m key f (joined f id) h c refl);
  bytes =
      v.bytes ∙ sym (same_sum covers (λ f. f.pending_payload_bytes) m key f (joined f id) h c refl);
}

unmoved-IsScope :
    (covers : DeliveryFlowKey × FlowState → Bool) (m : Flows) (key : DeliveryFlowKey)
    (f : FlowState) (id : ℕ) (o : Option ScopeState)
    → HashMap.get m key ≡ some f
    → covers (key, f) ≡ covers (key, joined f id)
    → IsScope covers m o
    → IsScope covers (HashMap.insert m key (joined f id)) o
unmoved-IsScope covers m key f id none h c v =
    same_sum covers (λ f. 1) m key f (joined f id) h c refl ∙ v
unmoved-IsScope covers m key f id (some s) h c v =
    (unmoved-IsUsage covers m key f id s h c v.0, v.1)

session_sum :
    (m : Flows) (key : DeliveryFlowKey) (f : FlowState) (id c : ℕ) (w : FlowState → ℕ)
    → HashMap.get m key ≡ some f
    → is_session f.session c ≡ false
    → sum_where (in_session c) w (HashMap.insert m key (joined f id))
      ≡ sum_where (in_session c) w m + (if id == c then w (joined f id) else 0)
session_sum m key f id c w h n = ground (
  arith,
  HashMap.sum_by-insert_present (λ x. if in_session c x then w x.1 else 0) m key (joined f id) f h,
  n,
)

associate-Keeps :
    (e : DeliveryEndpoint) (key : DeliveryFlowKey) (f : FlowState) (id : ℕ)
    (limits : DeliveryScopeLimits)
    → IsValid e
    → HashMap.get e.flows key ≡ some f
    → f.session ≡ none
    → Keeps (associate e key f id limits)
unfolding associate
associate-Keeps e key f id limits v h n =
    elim (Bool-cases (mismatches (HashMap.get e.sessions id) limits)) [
      | inl x ↦ (e, err session_limits_mismatch, rw (x, associate) refl, v)
      | inr x ↦
          elim (Bool-cases (
            scope_takes (HashMap.get e.sessions id) limits f.pending_messages
              f.pending_payload_bytes)) [
                | inr t ↦ (e, err resource_limit_exceeded, rw (x, t, associate) refl, v)
                | inl t ↦
                    let flow = HashMap.All-get IsFlow e.flows key f v.flows h in
                    let m' = HashMap.insert e.flows key (joined f id) in
                    let (sessions, q, vs) =
                      scopes_joined (λ c x. in_session c x) e.sessions e.flows m' (joined f id) id
                        limits (λ c w. session_sum e.flows key f id c w h (rw n refl)) t
                        v.counted.sessions in
                    (
                      record e { flows = m'; sessions = sessions },
                      ok associated,
                      rw (x, t, q, associate) refl,
                      record {
                        counted = record {
                          distinct =
                              HashMap.insert-Distinct e.flows key (joined f id) v.counted.distinct;
                          aggregate = (
                            unmoved-IsUsage everywhere e.flows key f id e.aggregate h refl
                                v.counted.aggregate.0,
                            v.counted.aggregate.1,
                          );
                          connections = λ c.
                              unmoved-IsScope (on_connection c) e.flows key f id
                                (HashMap.get e.connections c) h refl (v.counted.connections c);
                          sessions = vs;
                        };
                        flows =
                            HashMap.All-insert IsFlow e.flows key (joined f id)
                              (record {
                                messages = flow.messages;
                                bytes = flow.bytes;
                                buffer = flow.buffer;
                                policy = flow.policy;
                              })
                              v.flows;
                      },
                    )
              ]
    ]

reassociate-some :
    (e : DeliveryEndpoint) (key : DeliveryFlowKey) (f : FlowState) (current id : ℕ)
    (limits : DeliveryScopeLimits)
    → IsValid e
    → HashMap.get e.flows key ≡ some f
    → f.session ≡ some current
    → (r : Result SessionAssociationOutcome SessionAssociationError) × (reassociate e current id
          limits
        ≡ some r)
unfolding reassociate
reassociate-some e key f current id limits v h n =
    let (s, hs) =
      scope_found (in_session current) e.flows key f (HashMap.get e.sessions current) h
        (rw n (ground arith)) (v.counted.sessions current) in
    elim (Bool-cases (current == id)) [
      | inr x ↦ (err already_associated_with_different_session, rw (x, reassociate) refl)
      | inl x ↦ (
        if limits_beq s.limits limits then ok already_associated else err session_limits_mismatch,
        rw (x, hs, reassociate) refl,
      )
    ]

-- An association of a flow of a valid endpoint does not panic, and leaves a valid endpoint.
pub associate_flow_with_session-Keeps :
    (e : DeliveryEndpoint) (key : DeliveryFlowKey) (session : Session)
    (limits : DeliveryScopeLimits)
    → IsValid e
    → Keeps (associate_flow_with_session e key session limits)
unfolding associate_flow_with_session
associate_flow_with_session-Keeps e key session limits v =
    elim (Bool-cases (is_open session.phase)) [
      | inr o ↦ (e, err session_closed, rw (o, associate_flow_with_session) refl, v)
      | inl o ↦ elim (Option-cases (HashMap.get e.flows key)) [
        | inl h ↦ (e, err unknown_associated_flow, rw (o, h, associate_flow_with_session) refl, v)
        | inr (f, h) ↦ rw (o, h, associate_flow_with_session) (by_session f h f.session refl)
      ]
    ]
  where
    by_session :
        (f : FlowState)
        → HashMap.get e.flows key ≡ some f
        → (s : Option ℕ) → f.session ≡ s
        → Keeps {A = Result SessionAssociationOutcome SessionAssociationError} (elim s [
          | some current ↦ elim (reassociate e current session.id limits) [
            | none ↦ none
            | some result ↦ some (e, result)
          ]
          | none ↦ associate e key f session.id limits
        ])
    by_session f h none n = associate-Keeps e key f session.id limits v h n
    by_session f h (some current) n =
        let (r, q) = reassociate-some e key f current session.id limits v h n in
        (e, r, rw q refl, v)
