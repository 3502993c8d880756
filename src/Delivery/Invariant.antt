-- ===== src/Delivery/Invariant.antt =====
-- delivery.rs: the invariant of an endpoint: its scopes count what its flows hold.
use runen_net.Prelude.{
  ℕ, ◌+◌, ◌-◌, ◌≤◌, ◌≡◌, refl, sym, ◌∙◌, Bool, true, false, Option, none, some, List, if◌then◌else◌,
  nat_eq, length, sum_by, arith, All, ok,
}
use runen_net.Collections.BTreeMap
use runen_net.Collections.HashMap.{HashMap}
use runen_net.Collections.HashMap
use runen_net.Delivery.Types.{
  DeliveryFlowKey, flow_key_eq, DeliveryScopeLimits, ScopeState, DeliveryTransfer, payload_len,
  ReceiverBuffer, FlowState, DeliveryEndpoint, DeliveryDiagnostics, new_endpoint, validate_for_mode,
  flow_can_add,
}
use runen_net.Delivery.Accounting.{add_pending, remove_pending, put_flow}
use runen_net.Delivery.Counting.{
  Flows, everywhere, on_connection, in_session, sum_where, IsUsage, IsScope, IsCounted,
}
use runen_net.Delivery.Pending.{Fits, add_pending-IsCounted, remove_pending-IsCounted}
use runen_net.Delivery.Flows.{is_reliable}
use mathlib.Core.Path.{subst}

abbrev pub held_count : ReceiverBuffer → ℕ
held_count (ReceiverBuffer.reliable by_index next) = length by_index
held_count (ReceiverBuffer.unreliable queue last) = length queue

abbrev pub held_bytes : ReceiverBuffer → ℕ
held_bytes (ReceiverBuffer.reliable by_index next) = BTreeMap.total payload_len by_index
held_bytes (ReceiverBuffer.unreliable queue last) = sum_by payload_len queue

abbrev pub is_reliable_buffer : ReceiverBuffer → Bool
is_reliable_buffer (ReceiverBuffer.reliable by_index next) = true
is_reliable_buffer (ReceiverBuffer.unreliable queue last) = false

-- A flow counts what it holds, and its buffer and its policy are those of its mode.
pub record IsFlow (f : FlowState) : Type 0 where
  pub messages : f.pending_messages ≡ length f.outbound + held_count f.receiver
  pub bytes : f.pending_payload_bytes ≡ sum_by payload_len f.outbound + held_bytes f.receiver
  pub buffer : is_reliable_buffer f.receiver ≡ is_reliable f.mode
  pub policy : validate_for_mode f.policy f.mode ≡ ok tt

pub record IsValid (e : DeliveryEndpoint) : Type 0 where
  pub counted : IsCounted e
  pub flows : All (λ x. IsFlow x.1) e.flows

-- A call that may panic returns, and leaves a valid endpoint.
abbrev pub Keeps : {A : Type 0} → Option (DeliveryEndpoint × A) → Type 0
Keeps {A = A} o = (e' : DeliveryEndpoint) × (a : A) × (o ≡ some (e', a)) × IsValid e'

pub new_endpoint-IsValid : (limits : DeliveryScopeLimits) → IsValid (new_endpoint limits)
unfolding new_endpoint HashMap.get
new_endpoint-IsValid limits = record {
  counted = record {
    distinct = tt;
    aggregate = (
      record { active = refl; messages = refl; bytes = refl },
      record { active = omega arith; messages = omega arith; bytes = omega arith },
    );
    connections = λ c. refl;
    sessions = λ s. refl;
  };
  flows = tt;
}

pub noted-IsValid :
    (e : DeliveryEndpoint) (d : DeliveryDiagnostics)
    → IsValid e
    → IsValid (record e { diagnostics = d })
noted-IsValid e d v = record {
  counted = record {
    distinct = v.counted.distinct;
    aggregate = v.counted.aggregate;
    connections = v.counted.connections;
    sessions = v.counted.sessions;
  };
  flows = v.flows;
}

-- A flow with other contents, which counts as before.
abbrev pub holding : FlowState → Option ℕ → List DeliveryTransfer → ReceiverBuffer → FlowState
holding f next outbound receiver = record f {
  next_accepted_index = next;
  outbound = outbound;
  receiver = receiver;
}

pub same_sum :
    (covers : DeliveryFlowKey × FlowState → Bool) (w : FlowState → ℕ) (m : Flows)
    (key : DeliveryFlowKey) (f f' : FlowState)
    → HashMap.get m key ≡ some f
    → covers (key, f) ≡ covers (key, f')
    → w f ≡ w f'
    → sum_where covers w (HashMap.insert m key f') ≡ sum_where covers w m
same_sum covers w m key f f' h c q =
    ground
      (arith, HashMap.sum_by-insert_present (λ x. if covers x then w x.1 else 0) m key f' f h, c, q)

same-IsUsage :
    (covers : DeliveryFlowKey × FlowState → Bool) (m : Flows) (key : DeliveryFlowKey)
    (f : FlowState) (next : Option ℕ) (outbound : List DeliveryTransfer) (receiver : ReceiverBuffer)
    (s : ScopeState)
    → HashMap.get m key ≡ some f
    → covers (key, f) ≡ covers (key, holding f next outbound receiver)
    → IsUsage covers m s.usage
    → IsUsage covers (HashMap.insert m key (holding f next outbound receiver)) s.usage
same-IsUsage covers m key f next outbound receiver s h c v = record {
  active =
      v.active ∙ sym (same_sum covers (λ f. 1) m key f (holding f next outbound receiver) h c refl);
  messages =
      v.messages
      ∙ sym (
          same_sum covers (λ f. f.pending_messages) m key f (holding f next outbound receiver) h c
            refl);
  bytes =
      v.bytes
      ∙ sym (
          same_sum covers (λ f. f.pending_payload_bytes) m key f (holding f next outbound receiver)
            h c refl);
}

same-IsScope :
    (covers : DeliveryFlowKey × FlowState → Bool) (m : Flows) (key : DeliveryFlowKey)
    (f : FlowState) (next : Option ℕ) (outbound : List DeliveryTransfer) (receiver : ReceiverBuffer)
    (o : Option ScopeState)
    → HashMap.get m key ≡ some f
    → covers (key, f) ≡ covers (key, holding f next outbound receiver)
    → IsScope covers m o
    → IsScope covers (HashMap.insert m key (holding f next outbound receiver)) o
same-IsScope covers m key f next outbound receiver none h c v =
    same_sum covers (λ f. 1) m key f (holding f next outbound receiver) h c refl ∙ v
same-IsScope covers m key f next outbound receiver (some s) h c v =
    (same-IsUsage covers m key f next outbound receiver s h c v.0, v.1)

pub put_flow-IsCounted :
    (e : DeliveryEndpoint) (key : DeliveryFlowKey) (f : FlowState) (next : Option ℕ)
    (outbound : List DeliveryTransfer) (receiver : ReceiverBuffer)
    → IsCounted e
    → HashMap.get e.flows key ≡ some f
    → IsCounted (put_flow e key (holding f next outbound receiver))
put_flow-IsCounted e key f next outbound receiver v h = record {
  distinct = HashMap.insert-Distinct e.flows key (holding f next outbound receiver) v.distinct;
  aggregate = (
    same-IsUsage everywhere e.flows key f next outbound receiver e.aggregate h refl v.aggregate.0,
    v.aggregate.1,
  );
  connections = λ c.
      same-IsScope (on_connection c) e.flows key f next outbound receiver
        (HashMap.get e.connections c) h refl (v.connections c);
  sessions = λ s.
      same-IsScope (in_session s) e.flows key f next outbound receiver (HashMap.get e.sessions s) h
        refl (v.sessions s);
}

put-get :
    (m : Flows) (key : DeliveryFlowKey) (f : FlowState)
    → HashMap.get (HashMap.insert m key f) key ≡ some f
put-get m key f = ground (arith, HashMap.get-insert m key key f, flow_key_eq.same_iff key key)

-- A message that is added to the contents of a flow that can take it.
pub hold_message :
    (e : DeliveryEndpoint) (key : DeliveryFlowKey) (f : FlowState) (next : Option ℕ)
    (outbound : List DeliveryTransfer) (receiver : ReceiverBuffer) (bytes : ℕ)
    → IsValid e
    → HashMap.get e.flows key ≡ some f
    → Fits e key f bytes
    → IsFlow (record (holding f next outbound receiver) {
      pending_messages = f.pending_messages + 1;
      pending_payload_bytes = f.pending_payload_bytes + bytes;
    })
    → (e' : DeliveryEndpoint) × (add_pending
          (put_flow e key (holding f next outbound receiver))
          key
          1
          bytes
        ≡ some e')
      × IsValid e'
      × (HashMap.get e'.flows key
          ≡ some (record (holding f next outbound receiver) {
            pending_messages = f.pending_messages + 1;
            pending_payload_bytes = f.pending_payload_bytes + bytes;
          }))
unfolding flow_can_add
hold_message e key f next outbound receiver bytes v h fit flow =
    let held = holding f next outbound receiver in
    let (e', q, counted, flows) =
      add_pending-IsCounted (put_flow e key held) key held bytes
        (put_flow-IsCounted e key f next outbound receiver v.counted h) (put-get e.flows key held)
        (record {
          flow = fit.flow;
          connection = fit.connection;
          aggregate = fit.aggregate;
          session = fit.session;
        }) in
    (
      e',
      q,
      record {
        counted = counted;
        flows =
            subst (All (λ x. IsFlow x.1))
              (sym (flows ∙ HashMap.insert-insert e.flows key held final))
              (HashMap.All-insert IsFlow e.flows key final flow v.flows);
      },
      subst (λ m. HashMap.get m key ≡ some final) (sym flows)
          (put-get (HashMap.insert e.flows key held) key final),
    )
  where
    final : FlowState
    final = record (holding f next outbound receiver) {
      pending_messages = f.pending_messages + 1;
      pending_payload_bytes = f.pending_payload_bytes + bytes;
    }

-- A message that leaves the contents of a flow that counted it.
pub release_message :
    (e : DeliveryEndpoint) (key : DeliveryFlowKey) (f : FlowState) (next : Option ℕ)
    (outbound : List DeliveryTransfer) (receiver : ReceiverBuffer) (bytes : ℕ)
    → IsValid e
    → HashMap.get e.flows key ≡ some f
    → 1 ≤ f.pending_messages
    → bytes ≤ f.pending_payload_bytes
    → IsFlow (record (holding f next outbound receiver) {
      pending_messages = f.pending_messages - 1;
      pending_payload_bytes = f.pending_payload_bytes - bytes;
    })
    → (e' : DeliveryEndpoint) × (remove_pending
          (put_flow e key (holding f next outbound receiver))
          key
          1
          bytes
        ≡ some e')
      × IsValid e'
      × (HashMap.get e'.flows key
          ≡ some (record (holding f next outbound receiver) {
            pending_messages = f.pending_messages - 1;
            pending_payload_bytes = f.pending_payload_bytes - bytes;
          }))
release_message e key f next outbound receiver bytes v h fm fb flow =
    let held = holding f next outbound receiver in
    let (e', q, counted, flows) =
      remove_pending-IsCounted (put_flow e key held) key held bytes
        (put_flow-IsCounted e key f next outbound receiver v.counted h) (put-get e.flows key held)
        fm fb in
    (
      e',
      q,
      record {
        counted = counted;
        flows =
            subst (All (λ x. IsFlow x.1))
              (sym (flows ∙ HashMap.insert-insert e.flows key held final))
              (HashMap.All-insert IsFlow e.flows key final flow v.flows);
      },
      subst (λ m. HashMap.get m key ≡ some final) (sym flows)
          (put-get (HashMap.insert e.flows key held) key final),
    )
  where
    final : FlowState
    final = record (holding f next outbound receiver) {
      pending_messages = f.pending_messages - 1;
      pending_payload_bytes = f.pending_payload_bytes - bytes;
    }
