-- ===== src/Delivery/Counting.antt =====
-- delivery.rs: what each scope counts, as sums over the flows.
use runen_net.Prelude.{
  ℕ, ◌+◌, ◌≤◌, ◌<◌, ◌≡◌, sym, ◌∙◌, Bool, true, false, Option, none, some, if◌then◌else◌, ◌==◌,
  nat_eq, arith, sum_by,
}
use runen_net.Collections.HashMap.{HashMap}
use runen_net.Collections.HashMap
use runen_net.Delivery.Types.{
  DeliveryFlowKey, flow_key_eq, ScopeUsage, ScopeState, FlowState, DeliveryEndpoint,
}

abbrev pub Flows : Type 0
Flows = HashMap DeliveryFlowKey FlowState

-- The flows that a scope covers.
abbrev pub everywhere : DeliveryFlowKey × FlowState → Bool
everywhere x = true

abbrev pub on_connection : ℕ → DeliveryFlowKey × FlowState → Bool
on_connection connection x = x.0.connection == connection

abbrev pub is_session : Option ℕ → ℕ → Bool
is_session none id = false
is_session (some s) id = s == id

abbrev pub in_session : ℕ → DeliveryFlowKey × FlowState → Bool
in_session id x = is_session x.1.session id

abbrev pub sum_where : (DeliveryFlowKey × FlowState → Bool) → (FlowState → ℕ) → Flows → ℕ
sum_where covers w m = sum_by (λ x. if covers x then w x.1 else 0) m

-- A usage counts the flows that its scope covers.
pub record IsUsage (covers : DeliveryFlowKey × FlowState → Bool) (m : Flows) (u : ScopeUsage)
    : Type 0 where
  pub active : u.active_flows ≡ sum_where covers (λ f. 1) m
  pub messages : u.pending_messages ≡ sum_where covers (λ f. f.pending_messages) m
  pub bytes : u.pending_payload_bytes ≡ sum_where covers (λ f. f.pending_payload_bytes) m

pub record IsWithin (s : ScopeState) : Type 0 where
  pub active : s.usage.active_flows ≤ s.limits.max_active_flows
  pub messages : s.usage.pending_messages ≤ s.limits.max_pending_messages
  pub bytes : s.usage.pending_payload_bytes ≤ s.limits.max_pending_payload_bytes

-- A scope that stands in a map counts its flows within its limits; one that does not has none.
abbrev pub IsScope : (DeliveryFlowKey × FlowState → Bool) → Flows → Option ScopeState → Type 0
IsScope covers m none = sum_where covers (λ f. 1) m ≡ 0
IsScope covers m (some s) = IsUsage covers m s.usage × IsWithin s

-- The flows change at one key, and a usage with them.
pub record Shifts (u u' : ScopeUsage) (f f' : FlowState) : Type 0 where
  pub active : u'.active_flows ≡ u.active_flows
  pub messages : u'.pending_messages + f.pending_messages ≡ u.pending_messages + f'.pending_messages
  pub bytes :
      u'.pending_payload_bytes + f.pending_payload_bytes
      ≡ u.pending_payload_bytes + f'.pending_payload_bytes

pub shifted-IsUsage :
    (covers : DeliveryFlowKey × FlowState → Bool) (m : Flows) (key : DeliveryFlowKey)
    (f f' : FlowState) (u u' : ScopeUsage)
    → HashMap.get m key ≡ some f
    → covers (key, f) ≡ true
    → covers (key, f') ≡ true
    → IsUsage covers m u
    → Shifts u u' f f'
    → IsUsage covers (HashMap.insert m key f') u'
shifted-IsUsage covers m key f f' u u' h c c' v s = record {
  active = ground (
    arith,
    HashMap.sum_by-insert_present (λ x. if covers x then 1 else 0) m key f' f h,
    v.active,
    s.active,
  );
  messages = ground (
    arith,
    HashMap.sum_by-insert_present (λ x. if covers x then x.1.pending_messages else 0) m key f' f h,
    v.messages,
    s.messages,
  );
  bytes = ground (
    arith,
    HashMap.sum_by-insert_present (λ x. if covers x then x.1.pending_payload_bytes else 0) m key f'
        f h,
    v.bytes,
    s.bytes,
  );
}

other_sum :
    (covers : DeliveryFlowKey × FlowState → Bool) (w : FlowState → ℕ) (m : Flows)
    (key : DeliveryFlowKey) (f f' : FlowState)
    → HashMap.get m key ≡ some f
    → covers (key, f) ≡ false
    → covers (key, f') ≡ false
    → sum_where covers w (HashMap.insert m key f') ≡ sum_where covers w m
other_sum covers w m key f f' h c c' =
    ground (arith, HashMap.sum_by-insert_present (λ x. if covers x then w x.1 else 0) m key f' f h)

-- A scope that does not cover the flow counts as before.
pub other-IsScope :
    (covers : DeliveryFlowKey × FlowState → Bool) (m : Flows) (key : DeliveryFlowKey)
    (f f' : FlowState) (o : Option ScopeState)
    → HashMap.get m key ≡ some f
    → covers (key, f) ≡ false
    → covers (key, f') ≡ false
    → IsScope covers m o
    → IsScope covers (HashMap.insert m key f') o
other-IsScope covers m key f f' none h c c' v = other_sum covers (λ f. 1) m key f f' h c c' ∙ v
other-IsScope covers m key f f' (some s) h c c' v = (
  record {
    active = v.0.active ∙ sym (other_sum covers (λ f. 1) m key f f' h c c');
    messages = v.0.messages ∙ sym (other_sum covers (λ f. f.pending_messages) m key f f' h c c');
    bytes = v.0.bytes ∙ sym (other_sum covers (λ f. f.pending_payload_bytes) m key f f' h c c');
  },
  v.1,
)

-- Each scope counts its flows, within its limits.
pub record IsCounted (e : DeliveryEndpoint) : Type 0 where
  pub distinct : HashMap.Distinct e.flows
  pub aggregate : IsUsage everywhere e.flows e.aggregate.usage × IsWithin e.aggregate
  pub connections : (c : ℕ) → IsScope (on_connection c) e.flows (HashMap.get e.connections c)
  pub sessions : (s : ℕ) → IsScope (in_session s) e.flows (HashMap.get e.sessions s)

-- A flow that is counted in a scope has it.
pub covered_sum :
    (covers : DeliveryFlowKey × FlowState → Bool) (m : Flows) (key : DeliveryFlowKey)
    (f : FlowState)
    → HashMap.get m key ≡ some f
    → covers (key, f) ≡ true
    → 0 < sum_where covers (λ f. 1) m
covered_sum covers m key f h c =
    ground (arith, HashMap.sum_by-get-le (λ x. if covers x then 1 else 0) m key f h)

pub covered_sum-le :
    (covers : DeliveryFlowKey × FlowState → Bool) (w : FlowState → ℕ) (m : Flows)
    (key : DeliveryFlowKey) (f : FlowState)
    → HashMap.get m key ≡ some f
    → covers (key, f) ≡ true
    → w f ≤ sum_where covers w m
covered_sum-le covers w m key f h c =
    ground (arith, HashMap.sum_by-get-le (λ x. if covers x then w x.1 else 0) m key f h)
