-- ===== src/Delivery/Changing.antt =====
-- delivery.rs: `add_pending` and `remove_pending` keep every scope's count.
use runen_net.Prelude.{
  ℕ, ◌≡◌, refl, sym, ◌∙◌, Bool, true, Option, none, some, ◌==◌, nat_eq, arith, Bool-cases, inl, inr,
}
use runen_net.Collections.HashMap.{HashMap}
use runen_net.Collections.HashMap
use runen_net.Delivery.Types.{
  DeliveryFlowKey, flow_key_eq, ScopeUsage, ScopeState, FlowState, DeliveryEndpoint,
}
use runen_net.Delivery.Accounting.{with_scope, with_session, flow_usage, change_pending}
use runen_net.Delivery.Counting.{
  Flows, everywhere, on_connection, in_session, IsWithin, IsScope, Shifts, shifted-IsUsage,
  other-IsScope, IsCounted, covered_sum,
}
use mathlib.Core.Path.{subst}

-- A change that a scope takes, and that moves its usage as the flow's.
abbrev pub Moves : (ScopeUsage → Option ScopeUsage) → ScopeState → FlowState → FlowState → Type 0
Moves change s f f' =
    (u' : ScopeUsage) × (change s.usage ≡ some u')
    × Shifts s.usage u' f f'
    × IsWithin (record s { usage = u' })

pub record IsAllowed (e : DeliveryEndpoint) (key : DeliveryFlowKey) (f : FlowState)
    (messages bytes : ℕ) (change : ScopeUsage → Option ScopeUsage) : Type 0 where
  pub own :
      change (flow_usage f)
      ≡ some
          (record { active_flows = 0; pending_messages = messages; pending_payload_bytes = bytes })
  pub aggregate :
      Moves change e.aggregate f
        (record f { pending_messages = messages; pending_payload_bytes = bytes })
  pub connection :
      (s : ScopeState)
      → HashMap.get e.connections key.connection ≡ some s
      → Moves change s f (record f { pending_messages = messages; pending_payload_bytes = bytes })
  pub session :
      (id : ℕ) (s : ScopeState)
      → f.session ≡ some id
      → HashMap.get e.sessions id ≡ some s
      → Moves change s f (record f { pending_messages = messages; pending_payload_bytes = bytes })

-- The scopes of a map, of which one covers the flow.
scopes_after :
    (covers : ℕ → DeliveryFlowKey × FlowState → Bool) (scopes : HashMap ℕ ScopeState) (m : Flows)
    (key : DeliveryFlowKey) (f f' : FlowState) (k : ℕ) (s : ScopeState) (u' : ScopeUsage)
    → HashMap.get m key ≡ some f
    → HashMap.get scopes k ≡ some s
    → ((c : ℕ) → covers c (key, f) ≡ (k == c))
    → ((c : ℕ) → covers c (key, f') ≡ (k == c))
    → Shifts s.usage u' f f'
    → IsWithin (record s { usage = u' })
    → ((c : ℕ) → IsScope (covers c) m (HashMap.get scopes c))
    → (c : ℕ)
    → IsScope
        (covers c)
        (HashMap.insert m key f')
        (HashMap.get (HashMap.insert scopes k (record s { usage = u' })) c)
scopes_after covers scopes m key f f' k s u' h hs cf cf' shift within v c =
    elim (Bool-cases (k == c)) [
      | inl q ↦
          let here : HashMap.get (HashMap.insert scopes k (record s { usage = u' })) c
              ≡ some (record s { usage = u' }) =
            ground (arith, HashMap.get-insert scopes k c (record s { usage = u' })) in
          let before : HashMap.get scopes c ≡ some s = ground (arith, hs) in
          subst (IsScope (covers c) (HashMap.insert m key f')) (sym here) (
            shifted-IsUsage (covers c) m key f f' s.usage u' h (cf c ∙ q) (cf' c ∙ q)
                (subst (IsScope (covers c) m) before (v c)).0 shift,
            within,
          )
      | inr q ↦
          let elsewhere : HashMap.get (HashMap.insert scopes k (record s { usage = u' })) c
              ≡ HashMap.get scopes c =
            ground (arith, HashMap.get-insert scopes k c (record s { usage = u' })) in
          subst (IsScope (covers c) (HashMap.insert m key f')) (sym elsewhere) (
            other-IsScope (covers c) m key f f' (HashMap.get scopes c) h (cf c ∙ q) (cf' c ∙ q)
              (v c))
    ]

-- A scope that covers a flow stands in its map.
pub scope_found :
    (covers : DeliveryFlowKey × FlowState → Bool) (m : Flows) (key : DeliveryFlowKey)
    (f : FlowState) (o : Option ScopeState)
    → HashMap.get m key ≡ some f
    → covers (key, f) ≡ true
    → IsScope covers m o
    → (s : ScopeState) × (o ≡ some s)
scope_found covers m key f none h c v = absurd (omega (arith, covered_sum covers m key f h c, v))
scope_found covers m key f (some s) h c v = (s, refl)

session_after :
    (sessions : HashMap ℕ ScopeState) (o : Option ℕ) (m : Flows) (key : DeliveryFlowKey)
    (f f' : FlowState) (change : ScopeUsage → Option ScopeUsage)
    → HashMap.get m key ≡ some f
    → f.session ≡ o
    → f'.session ≡ o
    → ((id : ℕ) (s : ScopeState)
        → o ≡ some id
        → HashMap.get sessions id ≡ some s
        → Moves change s f f')
    → ((s : ℕ) → IsScope (in_session s) m (HashMap.get sessions s))
    → (sessions' : HashMap ℕ ScopeState) × (with_session sessions o change ≡ some sessions')
      × ((s : ℕ) → IsScope (in_session s) (HashMap.insert m key f') (HashMap.get sessions' s))
unfolding with_session with_scope
session_after sessions none m key f f' change h q q' moves v = (
  sessions,
  refl,
  λ s.
      other-IsScope (in_session s) m key f f' (HashMap.get sessions s) h (rw q refl) (rw q' refl)
        (v s),
)
session_after sessions (some id) m key f f' change h q q' moves v =
    let (s, hs) =
      scope_found (in_session id) m key f (HashMap.get sessions id) h (rw q (ground arith))
        (v id) in
    let (u', c, shift, within) = moves id s refl hs in
    (
      HashMap.insert sessions id (record s { usage = u' }),
      rw (hs, c, with_scope) refl,
      scopes_after (λ s x. in_session s x) sessions m key f f' id s u' h hs (λ c. rw q refl)
          (λ c. rw q' refl) shift within v,
    )

-- A change of what is pending on a flow that all its scopes take does not panic, and all scopes count
-- their flows as before.
pub change_pending-IsCounted :
    (e : DeliveryEndpoint) (key : DeliveryFlowKey) (f : FlowState) (messages bytes : ℕ)
    (change : ScopeUsage → Option ScopeUsage)
    → IsCounted e
    → HashMap.get e.flows key ≡ some f
    → IsAllowed e key f messages bytes change
    → (e' : DeliveryEndpoint) × (change_pending e key change ≡ some e')
      × IsCounted e'
      × (e'.flows
          ≡ HashMap.insert e.flows key
              (record f { pending_messages = messages; pending_payload_bytes = bytes }))
unfolding change_pending with_scope
change_pending-IsCounted e key f messages bytes change v h a =
    let (s, hs) =
      scope_found (on_connection key.connection) e.flows key f
        (HashMap.get e.connections key.connection) h (ground arith)
        (v.connections key.connection) in
    let (u, c, shift, within) = a.connection s hs in
    let (g, gc, gshift, gwithin) = a.aggregate in
    let (sessions, hsess, vsess) =
      session_after e.sessions f.session e.flows key f f' change h refl refl a.session v.sessions in
    (
      record e {
        flows = HashMap.insert e.flows key f';
        connections = HashMap.insert e.connections key.connection (record s { usage = u });
        aggregate = record { limits = e.aggregate.limits; usage = g };
        sessions = sessions;
      },
      rw (h, a.own, hs, c, gc, hsess, change_pending, with_scope) refl,
      record {
        distinct = HashMap.insert-Distinct e.flows key f' v.distinct;
        aggregate = (
          shifted-IsUsage everywhere e.flows key f f' e.aggregate.usage g h refl refl v.aggregate.0
              gshift,
          gwithin,
        );
        connections =
            scopes_after (λ c x. on_connection c x) e.connections e.flows key f f' key.connection s
              u h hs (λ c. refl) (λ c. refl) shift within v.connections;
        sessions = vsess;
      },
      refl,
    )
  where
    f' : FlowState
    f' = record f { pending_messages = messages; pending_payload_bytes = bytes }
