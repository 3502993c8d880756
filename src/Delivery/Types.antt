-- ===== src/Delivery/Types.antt =====
-- delivery.rs: flows, scopes and outcomes.
use runen_net.Prelude.{
  ℕ, ◌≡◌, ◌↔◌, Bool, true, false, ◌&&◌, Option, none, some, List, [], arith, nat_eq, ◌==◌, Eq,
  length, leb, checked_add, Result, ok, err,
}
use runen_net.Identity.{ConnectionHandle, SessionId}
use runen_net.Collections.BTreeMap.{BTreeMap}
use runen_net.Collections.HashMap.{HashMap}
use runen_net.Delivery.{DeliveryMode, reliable_ordered, unreliable_unordered, unreliable_sequenced}

pub data FlowDirection : Type 0 where
  outbound_direction inbound_direction : FlowDirection

pub record DeliveryFlowKey : Type 0 where
  pub connection : ConnectionHandle
  pub direction : FlowDirection
  pub handle : ℕ

abbrev pub is_outbound : FlowDirection → Bool
is_outbound outbound_direction = true
is_outbound inbound_direction = false

abbrev pub direction_beq : FlowDirection → FlowDirection → Bool
direction_beq outbound_direction outbound_direction = true
direction_beq inbound_direction inbound_direction = true
direction_beq a b = false

abbrev pub flow_key_beq : DeliveryFlowKey → DeliveryFlowKey → Bool
flow_key_beq a b =
    a.connection == b.connection && (direction_beq a.direction b.direction && a.handle == b.handle)

direction_beq_iff : (a b : FlowDirection) → (direction_beq a b ≡ true) ↔ (a ≡ b)
direction_beq_iff outbound_direction outbound_direction = ground arith
direction_beq_iff outbound_direction inbound_direction = ground arith
direction_beq_iff inbound_direction outbound_direction = ground arith
direction_beq_iff inbound_direction inbound_direction = ground arith

pub flow_key_beq_iff : (a b : DeliveryFlowKey) → (flow_key_beq a b ≡ true) ↔ (a ≡ b)
flow_key_beq_iff a b = ground (arith, direction_beq_iff a.direction b.direction)

instance abbrev pub flow_key_eq : Eq DeliveryFlowKey
flow_key_eq = record { same = flow_key_beq; same_iff = flow_key_beq_iff }

pub data OutboundPressureBehavior : Type 0 where
  reject_new evict_oldest_unreliable : OutboundPressureBehavior

pub data ReceiverPressureBehavior : Type 0 where
  terminate_reliable drop_incoming_unreliable evict_oldest_buffered_unreliable :
      ReceiverPressureBehavior

pub record FlowResourcePolicy : Type 0 where
  pub max_message_bytes : ℕ
  pub max_pending_messages : ℕ
  pub max_pending_payload_bytes : ℕ
  pub outbound_pressure : OutboundPressureBehavior
  pub receiver_pressure : ReceiverPressureBehavior

pub data DeliveryPolicyError : Type 0 where
  reliable_outbound_must_reject_new reliable_receiver_must_terminate
        unreliable_receiver_policy_required :
      DeliveryPolicyError

abbrev pub unreliable_receiver : ReceiverPressureBehavior → Result (Unit {0}) DeliveryPolicyError
unreliable_receiver terminate_reliable = err unreliable_receiver_policy_required
unreliable_receiver other = ok tt

abbrev pub reliable_pressure :
    OutboundPressureBehavior → ReceiverPressureBehavior → Result (Unit {0}) DeliveryPolicyError
reliable_pressure evict_oldest_unreliable receiver = err reliable_outbound_must_reject_new
reliable_pressure reject_new terminate_reliable = ok tt
reliable_pressure reject_new other = err reliable_receiver_must_terminate

unfoldable pub validate_for_mode :
    FlowResourcePolicy → DeliveryMode → Result (Unit {0}) DeliveryPolicyError
validate_for_mode p reliable_ordered = reliable_pressure p.outbound_pressure p.receiver_pressure
validate_for_mode p unreliable_unordered = unreliable_receiver p.receiver_pressure
validate_for_mode p unreliable_sequenced = unreliable_receiver p.receiver_pressure

pub record DeliveryScopeLimits : Type 0 where
  pub max_active_flows : ℕ
  pub max_pending_messages : ℕ
  pub max_pending_payload_bytes : ℕ

pub record ScopeUsage : Type 0 where
  pub active_flows : ℕ
  pub pending_messages : ℕ
  pub pending_payload_bytes : ℕ

pub record ScopeState : Type 0 where
  pub limits : DeliveryScopeLimits
  pub usage : ScopeUsage

abbrev pub no_usage : ScopeUsage
no_usage = record { active_flows = 0; pending_messages = 0; pending_payload_bytes = 0 }

abbrev pub new_scope : DeliveryScopeLimits → ScopeState
new_scope limits = record { limits = limits; usage = no_usage }

abbrev pub sum_within : ℕ → ℕ → ℕ → Bool
sum_within a b limit = elim (checked_add a b) [ none ↦ false | some sum ↦ leb sum limit ]

unfoldable pub can_add : ScopeUsage → DeliveryScopeLimits → ℕ → ℕ → ℕ → Bool
can_add u limits flows messages bytes =
    sum_within u.active_flows flows limits.max_active_flows
    && (sum_within u.pending_messages messages limits.max_pending_messages
        && sum_within u.pending_payload_bytes bytes limits.max_pending_payload_bytes)

-- A payload is its bytes.
pub record DeliveryTransfer : Type 0 where
  pub mode : DeliveryMode
  pub accepted_index : ℕ
  pub payload : List ℕ

abbrev pub payload_len : DeliveryTransfer → ℕ
payload_len t = length t.payload

pub data ReceiverBuffer : Type 0 where
  reliable : (by_index : BTreeMap DeliveryTransfer) (next_exposure : Option ℕ) → ReceiverBuffer
  unreliable : (queue : List DeliveryTransfer) (last_exposed_sequence : Option ℕ) → ReceiverBuffer

abbrev pub new_buffer : DeliveryMode → ReceiverBuffer
new_buffer reliable_ordered = reliable [] (some 0)
new_buffer unreliable_unordered = unreliable [] none
new_buffer unreliable_sequenced = unreliable [] none

pub record FlowState : Type 0 where
  pub mode : DeliveryMode
  pub policy : FlowResourcePolicy
  pub next_accepted_index : Option ℕ
  pub outbound : List DeliveryTransfer
  pub receiver : ReceiverBuffer
  pub pending_messages : ℕ
  pub pending_payload_bytes : ℕ
  pub session : Option SessionId

abbrev pub new_flow : DeliveryMode → FlowResourcePolicy → FlowState
new_flow mode policy = record {
  mode = mode;
  policy = policy;
  next_accepted_index = some 0;
  outbound = [];
  receiver = new_buffer mode;
  pending_messages = 0;
  pending_payload_bytes = 0;
  session = none;
}

unfoldable pub flow_can_add : FlowState → ℕ → ℕ → Bool
flow_can_add f messages bytes =
    sum_within f.pending_messages messages f.policy.max_pending_messages
    && sum_within f.pending_payload_bytes bytes f.policy.max_pending_payload_bytes

pub record DeliveryDiagnostics : Type 0 where
  pub outbound_unreliable_pressure_drops : ℕ
  pub inbound_unreliable_pressure_drops : ℕ
  pub stale_sequenced_drops : ℕ
  pub reliable_duplicate_suppressions : ℕ

pub record DeliveryEndpoint : Type 0 where
  pub aggregate : ScopeState
  pub connections : HashMap ConnectionHandle ScopeState
  pub sessions : HashMap SessionId ScopeState
  pub flows : HashMap DeliveryFlowKey FlowState
  pub diagnostics : DeliveryDiagnostics

unfoldable pub new_endpoint : DeliveryScopeLimits → DeliveryEndpoint
new_endpoint limits = record {
  aggregate = new_scope limits;
  connections = [];
  sessions = [];
  flows = [];
  diagnostics = record {
    outbound_unreliable_pressure_drops = 0;
    inbound_unreliable_pressure_drops = 0;
    stale_sequenced_drops = 0;
    reliable_duplicate_suppressions = 0;
  };
}
