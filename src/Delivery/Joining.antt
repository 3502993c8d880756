-- ===== src/Delivery/Joining.antt =====
-- delivery.rs: a flow that is established, or associated with a session, joins the count of a scope.
use runen_net.Prelude.{
  ℕ, ◌+◌, ◌≡◌, refl, sym, ◌∙◌, Bool, true, false, Option, none, some, [], ◌∷◌, if◌then◌else◌, ◌==◌,
  nat_eq, arith, Bool-cases, Option-cases, inl, inr, Result, ok, err,
}
use runen_net.Collections.HashMap.{HashMap}
use runen_net.Collections.HashMap
use runen_net.Delivery.{DeliveryMode, reliable_ordered, unreliable_unordered, unreliable_sequenced}
use runen_net.Delivery.Types.{
  DeliveryFlowKey, flow_key_eq, FlowResourcePolicy, DeliveryPolicyError, validate_for_mode,
  DeliveryScopeLimits, ScopeUsage, ScopeState, no_usage, new_scope, can_add, FlowState, new_flow,
  DeliveryEndpoint,
}
use runen_net.Delivery.Accounting.{usage_add, with_scope}
use runen_net.Delivery.Flows.{
  invalid_policy, flow_already_exists, connection_limits_mismatch, active_flow_limit_exceeded,
  connection_scope, aggregate_scope, scope_takes, mismatches, add_to_scope, establish,
  establish_flow,
}
use runen_net.Delivery.Counting.{
  Flows, everywhere, on_connection, in_session, sum_where, IsUsage, IsWithin, IsScope,
}
use runen_net.Delivery.Pending.{sum_within_le}
use runen_net.Delivery.Invariant.{IsFlow, IsValid, Keeps}
use mathlib.Core.Path.{subst}

no_sum :
    (covers : DeliveryFlowKey × FlowState → Bool) (w : FlowState → ℕ) (m : Flows)
    → sum_where covers (λ f. 1) m ≡ 0
    → sum_where covers w m ≡ 0
no_sum covers w [] h = refl
no_sum covers w (x ∷ m) h = elim (Bool-cases (covers x)) [
  | inl c ↦ absurd (ground (arith, c))
  | inr c ↦ ground (arith, c, no_sum covers w m)
]

-- A usage that takes one more flow with what is pending on it.
abbrev more : ScopeUsage → FlowState → ScopeUsage
more u f = record {
  active_flows = u.active_flows + 1;
  pending_messages = u.pending_messages + f.pending_messages;
  pending_payload_bytes = u.pending_payload_bytes + f.pending_payload_bytes;
}

-- The flows of a scope after one has joined it.
abbrev Joins : (DeliveryFlowKey × FlowState → Bool) → Flows → Flows → FlowState → Type 0
Joins covers m m' f = (w : FlowState → ℕ) → sum_where covers w m' ≡ sum_where covers w m + w f

more-IsUsage :
    (covers : DeliveryFlowKey × FlowState → Bool) (m m' : Flows) (f : FlowState)
    (limits : DeliveryScopeLimits) (u : ScopeUsage)
    → IsUsage covers m u
    → Joins covers m m' f
    → can_add u limits 1 f.pending_messages f.pending_payload_bytes ≡ true
    → (usage_add u 1 f.pending_messages f.pending_payload_bytes ≡ some (more u f))
      × IsUsage covers m' (more u f)
      × IsWithin (record { limits = limits; usage = more u f })
unfolding usage_add can_add
more-IsUsage covers m m' f limits u v joins h =
    let a = sum_within_le u.active_flows 1 limits.max_active_flows (ground arith) in
    let n =
      sum_within_le u.pending_messages f.pending_messages limits.max_pending_messages
        (ground arith) in
    let b =
      sum_within_le u.pending_payload_bytes f.pending_payload_bytes limits.max_pending_payload_bytes
        (ground arith) in
    (
      rw (a.0, n.0, b.0, usage_add) refl,
      record {
        active = omega (arith, v.active, joins (λ f. 1));
        messages = omega (arith, v.messages, joins (λ f. f.pending_messages));
        bytes = omega (arith, v.bytes, joins (λ f. f.pending_payload_bytes));
      },
      record { active = a.1; messages = n.1; bytes = b.1 },
    )

kept-IsScope :
    (covers : DeliveryFlowKey × FlowState → Bool) (m m' : Flows) (o : Option ScopeState)
    → ((w : FlowState → ℕ) → sum_where covers w m' ≡ sum_where covers w m)
    → IsScope covers m o
    → IsScope covers m' o
kept-IsScope covers m m' none same v = same (λ f. 1) ∙ v
kept-IsScope covers m m' (some s) same v = (
  record {
    active = v.0.active ∙ sym (same (λ f. 1));
    messages = v.0.messages ∙ sym (same (λ f. f.pending_messages));
    bytes = v.0.bytes ∙ sym (same (λ f. f.pending_payload_bytes));
  },
  v.1,
)

with_scope-some :
    (scopes : HashMap ℕ ScopeState) (k : ℕ) (change : ScopeUsage → Option ScopeUsage)
    (s : ScopeState) (u : ScopeUsage)
    → HashMap.get scopes k ≡ some s
    → change s.usage ≡ some u
    → with_scope scopes k change ≡ some (HashMap.insert scopes k (record s { usage = u }))
unfolding with_scope
with_scope-some scopes k change s u h c = rw (h, c, with_scope) refl

pub scopes_joined :
    (covers : ℕ → DeliveryFlowKey × FlowState → Bool) (scopes : HashMap ℕ ScopeState) (m m' : Flows)
    (f : FlowState) (k : ℕ) (limits : DeliveryScopeLimits)
    → ((c : ℕ) (w : FlowState → ℕ)
        → sum_where (covers c) w m' ≡ sum_where (covers c) w m + (if k == c then w f else 0))
    → scope_takes (HashMap.get scopes k) limits f.pending_messages f.pending_payload_bytes ≡ true
    → ((c : ℕ) → IsScope (covers c) m (HashMap.get scopes c))
    → (scopes' : HashMap ℕ ScopeState) × (add_to_scope scopes k limits f.pending_messages
          f.pending_payload_bytes
        ≡ some scopes')
      × ((c : ℕ) → IsScope (covers c) m' (HashMap.get scopes' c))
unfolding add_to_scope
scopes_joined covers scopes m m' f k limits joins takes v =
    elim (Option-cases (HashMap.get scopes k)) [
      | inr (s, hs) ↦
          let (added, usage, within) =
            more-IsUsage (covers k) m m' f s.limits s.usage
              (subst (IsScope (covers k) m) hs (v k)).0 (own_joins k (joins k))
              (subst (λ o. scope_takes o limits f.pending_messages f.pending_payload_bytes ≡ true)
                hs takes) in
          let s' : ScopeState = record s { usage = more s.usage f } in
          (
            HashMap.insert scopes k s',
            rw (hs, add_to_scope)
                (with_scope-some scopes k
                  (λ u. usage_add u 1 f.pending_messages f.pending_payload_bytes) s (more s.usage f)
                  hs added),
            λ c.
                by_scope c (HashMap.insert scopes k s') s' (HashMap.get-insert scopes k c s')
                  (usage, within),
          )
      | inl hs ↦
          let empty = subst (IsScope (covers k) m) hs (v k) in
          let (added, usage, within) =
            more-IsUsage (covers k) m m' f limits no_usage
              (record {
                active = sym empty;
                messages = sym (no_sum (covers k) (λ f. f.pending_messages) m empty);
                bytes = sym (no_sum (covers k) (λ f. f.pending_payload_bytes) m empty);
              })
              (own_joins k (joins k))
              (subst (λ o. scope_takes o limits f.pending_messages f.pending_payload_bytes ≡ true)
                hs takes) in
          let s' : ScopeState = record { limits = limits; usage = more no_usage f } in
          let fresh : HashMap.get (HashMap.insert scopes k (new_scope limits)) k
              ≡ some (new_scope limits) =
            HashMap.get-insert scopes k k (new_scope limits) ∙ rw (self k) refl in
          (
            HashMap.insert (HashMap.insert scopes k (new_scope limits)) k s',
            rw (hs, add_to_scope)
                (with_scope-some (HashMap.insert scopes k (new_scope limits)) k
                  (λ u. usage_add u 1 f.pending_messages f.pending_payload_bytes) (new_scope limits)
                  (more no_usage f) fresh added),
            λ c.
                by_scope c (HashMap.insert (HashMap.insert scopes k (new_scope limits)) k s') s'
                  (ground (
                    arith,
                    HashMap.get-insert (HashMap.insert scopes k (new_scope limits)) k c s',
                    HashMap.get-insert scopes k c (new_scope limits),
                  ))
                  (usage, within),
          )
    ]
  where
    self : (k : ℕ) → (k == k) ≡ true
    self k = ground arith

    own_joins :
        (k : ℕ)
        → ((w : FlowState → ℕ)
            → sum_where (covers k) w m' ≡ sum_where (covers k) w m + (if k == k then w f else 0))
        → Joins (covers k) m m' f
    own_joins k joins w = ground (arith, joins w, self k)

    by_scope :
        (c : ℕ) (scopes' : HashMap ℕ ScopeState) (s' : ScopeState)
        → HashMap.get scopes' c ≡ (if k == c then some s' else HashMap.get scopes c)
        → IsUsage (covers k) m' s'.usage × IsWithin s'
        → IsScope (covers c) m' (HashMap.get scopes' c)
    by_scope c scopes' s' g u = elim (Bool-cases (k == c)) [
      | inl q ↦
          let here : HashMap.get scopes' c ≡ some s' = g ∙ rw q refl in
          subst (IsScope (covers c) m') (sym here)
            (subst (λ j. IsUsage (covers j) m' s'.usage) (ground arith) u.0, u.1)
      | inr q ↦
          let elsewhere : HashMap.get scopes' c ≡ HashMap.get scopes c = g ∙ rw q refl in
          subst (IsScope (covers c) m') (sym elsewhere) (
            kept-IsScope (covers c) m m' (HashMap.get scopes c)
              (λ w. joins c w ∙ rw q (omega arith)) (v c))
    ]

new_flow-IsFlow :
    (mode : DeliveryMode) (policy : FlowResourcePolicy)
    → validate_for_mode policy mode ≡ ok tt
    → IsFlow (new_flow mode policy)
new_flow-IsFlow reliable_ordered policy h = record {
  messages = refl;
  bytes = refl;
  buffer = refl;
  policy = h;
}
new_flow-IsFlow unreliable_unordered policy h = record {
  messages = refl;
  bytes = refl;
  buffer = refl;
  policy = h;
}
new_flow-IsFlow unreliable_sequenced policy h = record {
  messages = refl;
  bytes = refl;
  buffer = refl;
  policy = h;
}

added_sum :
    (covers : DeliveryFlowKey × FlowState → Bool) (b : Bool) (w : FlowState → ℕ) (m : Flows)
    (key : DeliveryFlowKey) (f : FlowState)
    → HashMap.get m key ≡ none
    → covers (key, f) ≡ b
    → sum_where covers w (HashMap.insert m key f) ≡ sum_where covers w m + (if b then w f else 0)
added_sum covers b w m key f h c =
    HashMap.sum_by-insert_absent (λ x. if covers x then w x.1 else 0) m key f h ∙ rw c refl

-- Establishment of a flow at a valid endpoint does not panic, and leaves a valid endpoint.
pub establish_flow-Keeps :
    (e : DeliveryEndpoint) (key : DeliveryFlowKey) (mode : DeliveryMode)
    (policy : FlowResourcePolicy) (limits : DeliveryScopeLimits)
    → IsValid e
    → Keeps (establish_flow e key mode policy limits)
unfolding establish_flow establish
establish_flow-Keeps e key mode policy limits v = by_policy (validate_for_mode policy mode) refl
  where
    f : FlowState
    f = new_flow mode policy

    established :
        validate_for_mode policy mode ≡ ok tt
        → HashMap.get e.flows key ≡ none
        → can_add e.aggregate.usage e.aggregate.limits 1 0 0 ≡ true
        → scope_takes (HashMap.get e.connections key.connection) limits 0 0 ≡ true
        → (e' : DeliveryEndpoint) × (establish e key mode policy limits ≡ some e') × IsValid e'
    established p h a t =
        let m' = HashMap.insert e.flows key f in
        let (added, usage, within) =
          more-IsUsage everywhere e.flows m' f e.aggregate.limits e.aggregate.usage
            v.counted.aggregate.0 (λ w. added_sum everywhere true w e.flows key f h refl) a in
        let (connections, q, vc) =
          scopes_joined (λ c x. on_connection c x) e.connections e.flows m' f key.connection limits
            (λ c w. added_sum (on_connection c) (key.connection == c) w e.flows key f h refl) t
            v.counted.connections in
        (
          record e {
            aggregate = record { limits = e.aggregate.limits; usage = more e.aggregate.usage f };
            connections = connections;
            flows = m';
          },
          rw (added, q, establish) refl,
          record {
            counted = record {
              distinct = HashMap.insert-Distinct e.flows key f v.counted.distinct;
              aggregate = (usage, within);
              connections = vc;
              sessions = λ s.
                  kept-IsScope (in_session s) e.flows m' (HashMap.get e.sessions s)
                    (λ w. added_sum (in_session s) false w e.flows key f h refl ∙ omega arith)
                    (v.counted.sessions s);
            };
            flows = HashMap.All-insert IsFlow e.flows key f (new_flow-IsFlow mode policy p) v.flows;
          },
        )

    by_policy :
        (r : Result (Unit {0}) DeliveryPolicyError)
        → validate_for_mode policy mode ≡ r
        → Keeps (establish_flow e key mode policy limits)
    by_policy (err x) p = (e, err (invalid_policy x), rw (p, establish_flow) refl, v)
    by_policy (ok valid) p = elim (Option-cases (HashMap.get e.flows key)) [
      | inr (g, h) ↦ (e, err flow_already_exists, rw (p, h, establish_flow) refl, v)
      | inl h ↦ elim (Bool-cases (can_add e.aggregate.usage e.aggregate.limits 1 0 0)) [
        | inr a ↦ (
          e,
          err (active_flow_limit_exceeded aggregate_scope),
          rw (p, h, a, establish_flow) refl,
          v,
        )
        | inl a ↦ elim (Bool-cases (mismatches (HashMap.get e.connections key.connection) limits)) [
          | inl x ↦ (e, err connection_limits_mismatch, rw (p, h, a, x, establish_flow) refl, v)
          | inr x ↦
              elim (Bool-cases
                (scope_takes (HashMap.get e.connections key.connection) limits 0 0)) [
                  | inr t ↦ (
                    e,
                    err (active_flow_limit_exceeded connection_scope),
                    rw (p, h, a, x, t, establish_flow) refl,
                    v,
                  )
                  | inl t ↦
                      let (e', q, v') = established p h a t in
                      (e', ok tt, rw (p, h, a, x, t, q, establish_flow) refl, v')
                ]
        ]
      ]
    ]
