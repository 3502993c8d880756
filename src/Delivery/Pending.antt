-- ===== src/Delivery/Pending.antt =====
-- delivery.rs: a message is counted when the scopes can take it, and it is counted until it is removed.
use runen_net.Prelude.{
  ℕ, ◌+◌, ◌-◌, ◌≤◌, ◌≡◌, refl, Bool, true, false, Option, none, some, ltb, nat_eq, arith,
  Bool-cases, Option-cases, inl, inr, u64_mod, checked_add,
}
use runen_net.Collections.HashMap.{HashMap}
use runen_net.Collections.HashMap
use runen_net.Delivery.Types.{
  DeliveryFlowKey, flow_key_eq, ScopeState, FlowState, DeliveryEndpoint, can_add, flow_can_add,
  sum_within,
}
use runen_net.Delivery.Accounting.{
  usage_add, usage_remove, add_pending, remove_pending, can_add_pending, session_can_add,
}
use runen_net.Delivery.Counting.{
  everywhere, on_connection, in_session, IsUsage, IsWithin, IsScope, IsCounted, covered_sum-le,
}
use runen_net.Delivery.Changing.{Moves, scope_found, change_pending-IsCounted}
use mathlib.Core.Path.{subst}

pub sum_within_le :
    (a b limit : ℕ)
    → sum_within a b limit ≡ true
    → (checked_add a b ≡ some (a + b)) × (a + b ≤ limit)
sum_within_le a b limit h = elim (Bool-cases (ltb (a + b) u64_mod)) [
  | inl e ↦ ground (arith, e)
  | inr e ↦ absurd (ground (arith, e))
]

add_moves :
    (s : ScopeState) (f : FlowState) (bytes : ℕ)
    → can_add s.usage s.limits 0 1 bytes ≡ true
    → Moves
        (λ u. usage_add u 0 1 bytes)
        s
        f
        (record f {
          pending_messages = f.pending_messages + 1;
          pending_payload_bytes = f.pending_payload_bytes + bytes;
        })
unfolding can_add usage_add
add_moves s f bytes h =
    let a = sum_within_le s.usage.active_flows 0 s.limits.max_active_flows (ground arith) in
    let m = sum_within_le s.usage.pending_messages 1 s.limits.max_pending_messages (ground arith) in
    let b =
      sum_within_le s.usage.pending_payload_bytes bytes s.limits.max_pending_payload_bytes
        (ground arith) in
    (
      record {
        active_flows = s.usage.active_flows + 0;
        pending_messages = s.usage.pending_messages + 1;
        pending_payload_bytes = s.usage.pending_payload_bytes + bytes;
      },
      rw (a.0, m.0, b.0, usage_add) refl,
      record { active = omega arith; messages = omega arith; bytes = omega arith },
      record { active = a.1; messages = m.1; bytes = b.1 },
    )

remove_moves :
    (s : ScopeState) (f : FlowState) (bytes : ℕ)
    → IsWithin s
    → 1 ≤ s.usage.pending_messages
    → bytes ≤ s.usage.pending_payload_bytes
    → 1 ≤ f.pending_messages
    → bytes ≤ f.pending_payload_bytes
    → Moves
        (λ u. usage_remove u 0 1 bytes)
        s
        f
        (record f {
          pending_messages = f.pending_messages - 1;
          pending_payload_bytes = f.pending_payload_bytes - bytes;
        })
unfolding usage_remove
remove_moves s f bytes w hm hb fm fb = (
  record {
    active_flows = s.usage.active_flows - 0;
    pending_messages = s.usage.pending_messages - 1;
    pending_payload_bytes = s.usage.pending_payload_bytes - bytes;
  },
  ground arith,
  record { active = omega arith; messages = omega arith; bytes = omega arith },
  record {
    active = omega (arith, w.active);
    messages = omega (arith, w.messages);
    bytes = omega (arith, w.bytes);
  },
)

session_can_add-some :
    (e : DeliveryEndpoint) (o : Option ℕ) (messages bytes : ℕ)
    → ((id : ℕ) → o ≡ some id → (s : ScopeState) × (HashMap.get e.sessions id ≡ some s))
    → (b : Bool) × (session_can_add e o messages bytes ≡ some b)
unfolding session_can_add
session_can_add-some e none messages bytes h = (true, refl)
session_can_add-some e (some id) messages bytes h =
    let (s, q) = h id refl in
    (can_add s.usage s.limits 0 messages bytes, rw (q, session_can_add) refl)

-- The question whether a message fits is answered.
pub can_add_pending-some :
    (e : DeliveryEndpoint) (key : DeliveryFlowKey) (f : FlowState) (bytes : ℕ)
    → IsCounted e
    → HashMap.get e.flows key ≡ some f
    → (b : Bool) × (can_add_pending e key f 1 bytes ≡ some b)
unfolding can_add_pending
can_add_pending-some e key f bytes v h =
    let (s, hs) =
      scope_found (on_connection key.connection) e.flows key f
        (HashMap.get e.connections key.connection) h (ground arith)
        (v.connections key.connection) in
    let (b, q) = session_can_add-some e f.session 1 bytes (λ id o.
      scope_found (in_session id) e.flows key f (HashMap.get e.sessions id) h (rw o (ground arith))
        (v.sessions id)) in
    elim (Bool-cases (flow_can_add f 1 bytes)) [
      | inr x ↦ (false, rw (x, can_add_pending) refl)
      | inl x ↦ elim (Bool-cases (can_add s.usage s.limits 0 1 bytes)) [
        | inr y ↦ (false, rw (x, hs, y, can_add_pending) refl)
        | inl y ↦ elim (Bool-cases (can_add e.aggregate.usage e.aggregate.limits 0 1 bytes)) [
          | inr z ↦ (false, rw (x, hs, y, z, can_add_pending) refl)
          | inl z ↦ (b, rw (x, hs, y, z, can_add_pending) q)
        ]
      ]
    ]

-- What a positive answer says of each scope.
pub record Fits (e : DeliveryEndpoint) (key : DeliveryFlowKey) (f : FlowState) (bytes : ℕ)
    : Type 0 where
  pub flow : flow_can_add f 1 bytes ≡ true
  pub connection :
      (s : ScopeState)
      → HashMap.get e.connections key.connection ≡ some s
      → can_add s.usage s.limits 0 1 bytes ≡ true
  pub aggregate : can_add e.aggregate.usage e.aggregate.limits 0 1 bytes ≡ true
  pub session :
      (id : ℕ) (s : ScopeState)
      → f.session ≡ some id
      → HashMap.get e.sessions id ≡ some s
      → can_add s.usage s.limits 0 1 bytes ≡ true

pub can_add_pending-Fits :
    (e : DeliveryEndpoint) (key : DeliveryFlowKey) (f : FlowState) (bytes : ℕ)
    → can_add_pending e key f 1 bytes ≡ some true
    → Fits e key f bytes
unfolding can_add_pending session_can_add
can_add_pending-Fits e key f bytes h = elim (Bool-cases (flow_can_add f 1 bytes)) [
  | inr x ↦ absurd (ground (arith, x))
  | inl x ↦ elim (Option-cases (HashMap.get e.connections key.connection)) [
    | inl hs ↦ absurd (ground (arith, x, hs))
    | inr (s, hs) ↦ elim (Bool-cases (can_add s.usage s.limits 0 1 bytes)) [
      | inr y ↦ absurd (ground (arith, x, hs, y))
      | inl y ↦ elim (Bool-cases (can_add e.aggregate.usage e.aggregate.limits 0 1 bytes)) [
        | inr z ↦ absurd (ground (arith, x, hs, y, z))
        | inl z ↦ record {
          flow = x;
          connection = λ s' q.
              subst (λ (x : ScopeState). can_add x.usage x.limits 0 1 bytes ≡ true) (cc (hs, q)) y;
          aggregate = z;
          session = λ id s' o q. of_session f.session id s' o q (ground (arith, x, hs, y, z));
        }
      ]
    ]
  ]
]
  where
    of_session :
        (o : Option ℕ) (id : ℕ) (s : ScopeState)
        → o ≡ some id
        → HashMap.get e.sessions id ≡ some s
        → session_can_add e o 1 bytes ≡ some true
        → can_add s.usage s.limits 0 1 bytes ≡ true
    of_session none id s o q r = absurd (cc)
    of_session (some j) id s o q r =
        decided (subst (λ o. session_can_add e o 1 bytes ≡ some true) o r)
      where
        decided :
            session_can_add e (some id) 1 bytes ≡ some true
            → can_add s.usage s.limits 0 1 bytes ≡ true
        decided r = ground (arith, q, r)

pub add_pending-IsCounted :
    (e : DeliveryEndpoint) (key : DeliveryFlowKey) (f : FlowState) (bytes : ℕ)
    → IsCounted e
    → HashMap.get e.flows key ≡ some f
    → Fits e key f bytes
    → (e' : DeliveryEndpoint) × (add_pending e key 1 bytes ≡ some e')
      × IsCounted e'
      × (e'.flows
          ≡ HashMap.insert e.flows key (record f {
            pending_messages = f.pending_messages + 1;
            pending_payload_bytes = f.pending_payload_bytes + bytes;
          }))
unfolding usage_add flow_can_add
add_pending-IsCounted e key f bytes v h a =
    change_pending-IsCounted e key f (f.pending_messages + 1) (f.pending_payload_bytes + bytes)
      (λ u. usage_add u 0 1 bytes) v h
      (record {
        own =
            rw
              (
                (sum_within_le f.pending_messages 1 f.policy.max_pending_messages
                    (ground (arith, a.flow))).0,
                (sum_within_le f.pending_payload_bytes bytes f.policy.max_pending_payload_bytes
                    (ground (arith, a.flow))).0,
                usage_add,
              )
              refl;
        aggregate = add_moves e.aggregate f bytes a.aggregate;
        connection = λ s q. add_moves s f bytes (a.connection s q);
        session = λ id s o q. add_moves s f bytes (a.session id s o q);
      })

pub remove_pending-IsCounted :
    (e : DeliveryEndpoint) (key : DeliveryFlowKey) (f : FlowState) (bytes : ℕ)
    → IsCounted e
    → HashMap.get e.flows key ≡ some f
    → 1 ≤ f.pending_messages
    → bytes ≤ f.pending_payload_bytes
    → (e' : DeliveryEndpoint) × (remove_pending e key 1 bytes ≡ some e')
      × IsCounted e'
      × (e'.flows
          ≡ HashMap.insert e.flows key (record f {
            pending_messages = f.pending_messages - 1;
            pending_payload_bytes = f.pending_payload_bytes - bytes;
          }))
unfolding usage_remove
remove_pending-IsCounted e key f bytes v h fm fb =
    change_pending-IsCounted e key f (f.pending_messages - 1) (f.pending_payload_bytes - bytes)
      (λ u. usage_remove u 0 1 bytes) v h
      (record {
        own = ground arith;
        aggregate = moves everywhere e.aggregate refl v.aggregate;
        connection = λ s q. moves (on_connection key.connection) s (ground arith) (
            subst (IsScope (on_connection key.connection) e.flows) q
              (v.connections key.connection));
        session = λ id s o q.
            moves (in_session id) s (rw o (ground arith))
              (subst (IsScope (in_session id) e.flows) q (v.sessions id));
      })
  where
    moves :
        (covers : DeliveryFlowKey × FlowState → Bool) (s : ScopeState)
        → covers (key, f) ≡ true
        → IsUsage covers e.flows s.usage × IsWithin s
        → Moves
            (λ u. usage_remove u 0 1 bytes)
            s
            f
            (record f {
              pending_messages = f.pending_messages - 1;
              pending_payload_bytes = f.pending_payload_bytes - bytes;
            })
    moves covers s c u =
        remove_moves s f bytes u.1
          (omega (
            arith,
            u.0.messages,
            covered_sum-le covers (λ f. f.pending_messages) e.flows key f h c,
            fm,
          ))
          (omega (
            arith,
            u.0.bytes,
            covered_sum-le covers (λ f. f.pending_payload_bytes) e.flows key f h c,
            fb,
          ))
          fm fb
