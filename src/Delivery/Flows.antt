-- ===== src/Delivery/Flows.antt =====
-- delivery.rs: establishment, association and termination of flows.
use runen_net.Prelude.{
  ℕ, Bool, true, false, not, ◌&&◌, ◌||◌, Option, none, some, if◌then◌else◌, ltb, nat_eq, ◌==◌,
  Result, ok, err,
}
use runen_net.Identity.{SessionId}
use runen_net.Collections.HashMap.{HashMap}
use runen_net.Collections.HashMap
use runen_net.Session.State.{Session, is_open}
use runen_net.Delivery.{DeliveryMode, reliable_ordered}
use runen_net.Delivery.Types.{
  DeliveryFlowKey, flow_key_eq, DeliveryPolicyError, FlowResourcePolicy, validate_for_mode,
  DeliveryScopeLimits, ScopeState, no_usage, new_scope, can_add, FlowState, new_flow,
  DeliveryEndpoint,
}
use runen_net.Delivery.Accounting.{
  unknown_flow, Operation, usage_add, usage_remove, with_scope, put_flow,
}

pub data ResourceScope : Type 0 where
  flow_scope connection_scope session_scope aggregate_scope : ResourceScope

pub data FlowEstablishmentError : Type 0 where
  invalid_policy : DeliveryPolicyError → FlowEstablishmentError
  flow_already_exists connection_limits_mismatch : FlowEstablishmentError
  active_flow_limit_exceeded : ResourceScope → FlowEstablishmentError

pub data SessionAssociationOutcome : Type 0 where
  associated already_associated : SessionAssociationOutcome

pub data SessionAssociationError : Type 0 where
  unknown_associated_flow session_closed already_associated_with_different_session :
      SessionAssociationError
  session_limits_mismatch resource_limit_exceeded : SessionAssociationError

pub data FlowTerminationReason : Type 0 where
  requested connection_ended reliable_custody_lost reliable_receiver_pressure :
      FlowTerminationReason
  reliable_transfer_conflict reliable_inbound_too_large reliable_mode_mismatch :
      FlowTerminationReason

abbrev pub forces_reliable_failure : FlowTerminationReason → Bool
forces_reliable_failure requested = false
forces_reliable_failure connection_ended = false
forces_reliable_failure other = true

pub record FlowTermination : Type 0 where
  pub key : DeliveryFlowKey
  pub reason : FlowTerminationReason
  pub pending_messages : ℕ
  pub reliable_obligation_failed : Bool

abbrev pub limits_beq : DeliveryScopeLimits → DeliveryScopeLimits → Bool
limits_beq a b =
    a.max_active_flows == b.max_active_flows
    && (a.max_pending_messages == b.max_pending_messages
        && a.max_pending_payload_bytes == b.max_pending_payload_bytes)

abbrev pub is_reliable : DeliveryMode → Bool
is_reliable reliable_ordered = true
is_reliable other = false

-- A scope, or a new one, can take a flow with what is pending on it.
abbrev pub scope_takes : Option ScopeState → DeliveryScopeLimits → ℕ → ℕ → Bool
scope_takes none limits messages bytes = can_add no_usage limits 1 messages bytes
scope_takes (some scope) limits messages bytes = can_add scope.usage scope.limits 1 messages bytes

abbrev pub mismatches : Option ScopeState → DeliveryScopeLimits → Bool
mismatches none limits = false
mismatches (some scope) limits = not (limits_beq scope.limits limits)

-- `entry(k).or_insert_with(..)`, then `add`.
unfoldable pub add_to_scope :
    HashMap ℕ ScopeState → ℕ → DeliveryScopeLimits → ℕ → ℕ → Option (HashMap ℕ ScopeState)
unfolding with_scope
add_to_scope scopes k limits messages bytes = elim (HashMap.get scopes k) [
  | some scope ↦ with_scope scopes k (λ u. usage_add u 1 messages bytes)
  | none ↦
      with_scope (HashMap.insert scopes k (new_scope limits)) k (λ u. usage_add u 1 messages bytes)
]

unfoldable pub establish :
    DeliveryEndpoint
    → DeliveryFlowKey
    → DeliveryMode
    → FlowResourcePolicy
    → DeliveryScopeLimits
    → Option DeliveryEndpoint
unfolding add_to_scope
establish e key mode policy limits = elim (usage_add e.aggregate.usage 1 0 0) [
  | none ↦ none
  | some usage ↦ elim (add_to_scope e.connections key.connection limits 0 0) [
    | none ↦ none
    | some connections ↦ some (record e {
      aggregate = record { limits = e.aggregate.limits; usage = usage };
      connections = connections;
      flows = HashMap.insert e.flows key (new_flow mode policy);
    })
  ]
]

unfoldable pub establish_flow :
    DeliveryEndpoint
    → DeliveryFlowKey
    → DeliveryMode
    → FlowResourcePolicy
    → DeliveryScopeLimits
    → Option (DeliveryEndpoint × Result (Unit {0}) FlowEstablishmentError)
unfolding establish
establish_flow e key mode policy limits = elim (validate_for_mode policy mode) [
  | err error ↦ some (e, err (invalid_policy error))
  | ok valid ↦
      if HashMap.contains_key e.flows key
      then some (e, err flow_already_exists)
      else if not (can_add e.aggregate.usage e.aggregate.limits 1 0 0)
      then some (e, err (active_flow_limit_exceeded aggregate_scope))
      else if mismatches (HashMap.get e.connections key.connection) limits
      then some (e, err connection_limits_mismatch)
      else if not (scope_takes (HashMap.get e.connections key.connection) limits 0 0)
      then some (e, err (active_flow_limit_exceeded connection_scope))
      else elim (establish e key mode policy limits) [ none ↦ none | some e' ↦ some (e', ok tt) ]
]

-- An association that was made before.
unfoldable pub reassociate :
    DeliveryEndpoint
    → SessionId
    → SessionId
    → DeliveryScopeLimits
    → Option (Result SessionAssociationOutcome SessionAssociationError)
reassociate e current id limits =
    if not (current == id)
    then some (err already_associated_with_different_session)
    else elim (HashMap.get e.sessions current) [
      | none ↦ none
      | some scope ↦ some (
          if limits_beq scope.limits limits
          then ok already_associated
          else err session_limits_mismatch)
    ]

unfoldable pub associate :
    DeliveryEndpoint
    → DeliveryFlowKey
    → FlowState
    → SessionId
    → DeliveryScopeLimits
    → Option (DeliveryEndpoint × Result SessionAssociationOutcome SessionAssociationError)
unfolding add_to_scope
associate e key f id limits =
    if mismatches (HashMap.get e.sessions id) limits
    then some (e, err session_limits_mismatch)
    else if not
        (scope_takes (HashMap.get e.sessions id) limits f.pending_messages f.pending_payload_bytes)
    then some (e, err resource_limit_exceeded)
    else elim (add_to_scope e.sessions id limits f.pending_messages f.pending_payload_bytes) [
      | none ↦ none
      | some sessions ↦ some (
        put_flow (record e { sessions = sessions }) key (record f { session = some id }),
        ok associated,
      )
    ]

unfoldable pub associate_flow_with_session :
    DeliveryEndpoint
    → DeliveryFlowKey
    → Session
    → DeliveryScopeLimits
    → Option (DeliveryEndpoint × Result SessionAssociationOutcome SessionAssociationError)
unfolding reassociate associate
associate_flow_with_session e key session limits =
    if not (is_open session.phase)
    then some (e, err session_closed)
    else elim (HashMap.get e.flows key) [
      | none ↦ some (e, err unknown_associated_flow)
      | some f ↦ elim f.session [
        | some current ↦ elim (reassociate e current session.id limits) [
          | none ↦ none
          | some result ↦ some (e, result)
        ]
        | none ↦ associate e key f session.id limits
      ]
    ]

-- A scope without flows is removed.
unfoldable pub leave_scope : HashMap ℕ ScopeState → ℕ → ℕ → ℕ → Option (HashMap ℕ ScopeState)
leave_scope scopes k messages bytes = elim (HashMap.get scopes k) [
  | none ↦ none
  | some scope ↦ elim (usage_remove scope.usage 1 messages bytes) [
    | none ↦ none
    | some usage ↦ some (
        if usage.active_flows == 0
        then HashMap.remove scopes k
        else HashMap.insert scopes k (record scope { usage = usage }))
  ]
]

abbrev pub leave_session :
    HashMap SessionId ScopeState → Option SessionId → ℕ → ℕ → Option (HashMap SessionId ScopeState)
leave_session sessions none messages bytes = some sessions
leave_session sessions (some id) messages bytes = leave_scope sessions id messages bytes

abbrev pub termination : DeliveryFlowKey → FlowState → FlowTerminationReason → FlowTermination
termination key f reason = record {
  key = key;
  reason = reason;
  pending_messages = f.pending_messages;
  reliable_obligation_failed =
      is_reliable f.mode && (ltb 0 f.pending_messages || forces_reliable_failure reason);
}

unfoldable pub terminate_flow :
    DeliveryEndpoint → DeliveryFlowKey → FlowTerminationReason → Operation FlowTermination
unfolding leave_scope
terminate_flow e key reason = elim (HashMap.get e.flows key) [
  | none ↦ some (e, err unknown_flow)
  | some f ↦ elim (usage_remove e.aggregate.usage 1 f.pending_messages f.pending_payload_bytes) [
    | none ↦ none
    | some usage ↦
        elim (leave_scope e.connections key.connection f.pending_messages f.pending_payload_bytes) [
          | none ↦ none
          | some connections ↦
              elim (leave_session e.sessions f.session f.pending_messages f.pending_payload_bytes) [
                | none ↦ none
                | some sessions ↦ some (
                  record e {
                    flows = HashMap.remove e.flows key;
                    aggregate = record { limits = e.aggregate.limits; usage = usage };
                    connections = connections;
                    sessions = sessions;
                  },
                  ok (termination key f reason),
                )
              ]
        ]
  ]
]
