-- ===== src/Delivery/Accounting.antt =====
-- delivery.rs: what the scopes count. `none` is a panic: an `expect`, or an overflow.
use runen_net.Prelude.{
  ℕ, Bool, true, false, not, Option, none, some, if◌then◌else◌, nat_eq, checked_add, checked_sub,
  Result,
}
use runen_net.Identity.{SessionId}
use runen_net.Collections.HashMap.{HashMap}
use runen_net.Collections.HashMap
use runen_net.Delivery.Types.{
  DeliveryFlowKey, flow_key_eq, ScopeUsage, ScopeState, can_add, flow_can_add, FlowState,
  DeliveryEndpoint,
}

pub data DeliveryOperationError : Type 0 where
  unknown_flow wrong_direction not_reliable : DeliveryOperationError

-- The endpoint after a call and its result; `none` is a panic.
abbrev pub Operation : Type 0 → Type 0
Operation A = Option (DeliveryEndpoint × Result A DeliveryOperationError)

unfoldable pub usage_add : ScopeUsage → ℕ → ℕ → ℕ → Option ScopeUsage
usage_add u flows messages bytes = elim (checked_add u.active_flows flows) [
  | none ↦ none
  | some f ↦ elim (checked_add u.pending_messages messages) [
    | none ↦ none
    | some m ↦ elim (checked_add u.pending_payload_bytes bytes) [
      | none ↦ none
      | some b ↦ some (record { active_flows = f; pending_messages = m; pending_payload_bytes = b })
    ]
  ]
]

unfoldable pub usage_remove : ScopeUsage → ℕ → ℕ → ℕ → Option ScopeUsage
usage_remove u flows messages bytes = elim (checked_sub u.active_flows flows) [
  | none ↦ none
  | some f ↦ elim (checked_sub u.pending_messages messages) [
    | none ↦ none
    | some m ↦ elim (checked_sub u.pending_payload_bytes bytes) [
      | none ↦ none
      | some b ↦ some (record { active_flows = f; pending_messages = m; pending_payload_bytes = b })
    ]
  ]
]

-- A change of a scope that must exist.
unfoldable pub with_scope :
    HashMap ℕ ScopeState → ℕ → (ScopeUsage → Option ScopeUsage) → Option (HashMap ℕ ScopeState)
with_scope scopes k change = elim (HashMap.get scopes k) [
  | none ↦ none
  | some scope ↦ elim (change scope.usage) [
    | none ↦ none
    | some usage ↦ some (HashMap.insert scopes k (record scope { usage = usage }))
  ]
]

unfoldable pub with_session :
    HashMap SessionId ScopeState
    → Option SessionId
    → (ScopeUsage → Option ScopeUsage)
    → Option (HashMap SessionId ScopeState)
unfolding with_scope
with_session sessions none change = some sessions
with_session sessions (some id) change = with_scope sessions id change

-- What a flow counts of its own.
abbrev pub flow_usage : FlowState → ScopeUsage
flow_usage f = record {
  active_flows = 0;
  pending_messages = f.pending_messages;
  pending_payload_bytes = f.pending_payload_bytes;
}

abbrev pub put_flow : DeliveryEndpoint → DeliveryFlowKey → FlowState → DeliveryEndpoint
put_flow e key f = record e { flows = HashMap.insert e.flows key f }

-- `add_pending` and `remove_pending` change the flow, its connection, the aggregate and its session alike.
unfoldable pub change_pending :
    DeliveryEndpoint → DeliveryFlowKey → (ScopeUsage → Option ScopeUsage) → Option DeliveryEndpoint
unfolding with_scope with_session
change_pending e key change = elim (HashMap.get e.flows key) [
  | none ↦ none
  | some f ↦ elim (change (flow_usage f)) [
    | none ↦ none
    | some own ↦ elim (with_scope e.connections key.connection change) [
      | none ↦ none
      | some connections ↦ elim (change e.aggregate.usage) [
        | none ↦ none
        | some aggregate ↦ elim (with_session e.sessions f.session change) [
          | none ↦ none
          | some sessions ↦ some (record e {
            flows = HashMap.insert e.flows key (record f {
              pending_messages = own.pending_messages;
              pending_payload_bytes = own.pending_payload_bytes;
            });
            connections = connections;
            aggregate = record { limits = e.aggregate.limits; usage = aggregate };
            sessions = sessions;
          })
        ]
      ]
    ]
  ]
]

abbrev pub add_pending : DeliveryEndpoint → DeliveryFlowKey → ℕ → ℕ → Option DeliveryEndpoint
add_pending e key messages bytes = change_pending e key (λ u. usage_add u 0 messages bytes)

abbrev pub remove_pending : DeliveryEndpoint → DeliveryFlowKey → ℕ → ℕ → Option DeliveryEndpoint
remove_pending e key messages bytes = change_pending e key (λ u. usage_remove u 0 messages bytes)

unfoldable pub session_can_add : DeliveryEndpoint → Option SessionId → ℕ → ℕ → Option Bool
session_can_add e none messages bytes = some true
session_can_add e (some id) messages bytes = elim (HashMap.get e.sessions id) [
  | none ↦ none
  | some scope ↦ some (can_add scope.usage scope.limits 0 messages bytes)
]

-- `can_add_pending` of a flow that was found.
unfoldable pub can_add_pending :
    DeliveryEndpoint → DeliveryFlowKey → FlowState → ℕ → ℕ → Option Bool
unfolding session_can_add
can_add_pending e key f messages bytes =
    if not (flow_can_add f messages bytes)
    then some false
    else elim (HashMap.get e.connections key.connection) [
      | none ↦ none
      | some connection ↦
          if not (can_add connection.usage connection.limits 0 messages bytes)
          then some false
          else if not (can_add e.aggregate.usage e.aggregate.limits 0 messages bytes)
          then some false
          else session_can_add e f.session messages bytes
    ]
