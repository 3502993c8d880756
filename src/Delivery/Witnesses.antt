-- ===== src/Delivery/Witnesses.antt =====
-- delivery.rs: the theorems on endpoints and reliable buffers, at concrete ones.
use runen_net.Prelude.{
  ℕ, ok, Option, ◌≡◌, ◌<◌, refl, true, some, List, [], ◌∷◌, ◌++◌, map, is_some, none, if◌then◌else◌,
  ◌==◌, arith, nat_eq,
}
use runen_net.Collections.BTreeMap
use runen_net.Delivery.{reliable_ordered}
use runen_net.Delivery.Types.{
  DeliveryFlowKey, inbound_direction, outbound_direction, FlowResourcePolicy, reject_new,
  terminate_reliable, DeliveryScopeLimits, DeliveryTransfer, DeliveryEndpoint, new_endpoint,
  flow_key_eq,
}
use runen_net.Delivery.Flows.{FlowTermination, requested}
use runen_net.Delivery.Ending.{terminate_connection}
use runen_net.Delivery.Ended.{terminate_connection-run}
use runen_net.Collections.HashMap
use runen_net.Delivery.Receiving.{duplicate_or_conflict}
use runen_net.Delivery.Ordering.{Event, arrives, polls, first_with, repeated_polls}
use runen_net.Delivery.Types.{validate_for_mode, flow_can_add, can_add}
use runen_net.Delivery.Accounting.{
  usage_add, can_add_pending, change_pending, with_scope, with_session, session_can_add,
}
use runen_net.Delivery.Flows.{establish_flow, establish, scope_takes, add_to_scope}
use runen_net.Delivery.Receiving.{receive, receive_in_mode, receive_reliable, buffer_reliable}
use runen_net.Delivery.Exposure.{ExposedMessage}
use runen_net.Delivery.Delivering.{deliveries, IsReceiving, IsInOrder, deliveries-IsInOrder}
use runen_net.Delivery.Reordering.{arrived, wanted_messages, reordered_exposures}
use runen_net.Delivery.Opening.{establish_flow-IsReceiving}
use runen_net.Delivery.Invariant.{new_endpoint-IsValid}
use runen_net.Delivery.Invariant.{IsValid}
use runen_net.Delivery.History.{
  Call, establishes, submits, commits, receives, exposes, terminates, step, run,
  run-new_endpoint-IsValid,
}

abbrev small : DeliveryScopeLimits
small = record { max_active_flows = 3; max_pending_messages = 4; max_pending_payload_bytes = 16 }

abbrev strict : FlowResourcePolicy
strict = record {
  max_message_bytes = 4;
  max_pending_messages = 2;
  max_pending_payload_bytes = 8;
  outbound_pressure = reject_new;
  receiver_pressure = terminate_reliable;
}

abbrev sending : DeliveryFlowKey
sending = record { connection = 10; direction = outbound_direction; handle = 1 }

abbrev receiving : DeliveryFlowKey
receiving = record { connection = 10; direction = inbound_direction; handle = 2 }

abbrev transfer : ℕ → List ℕ → DeliveryTransfer
transfer index payload = record {
  mode = reliable_ordered;
  accepted_index = index;
  payload = payload;
}

abbrev calls : List Call
calls =
    establishes sending reliable_ordered strict small
    ∷ establishes receiving reliable_ordered strict small
    ∷ submits sending (1 ∷ 2 ∷ [])
    ∷ commits sending 0
    ∷ receives receiving (transfer 1 (7 ∷ []))
    ∷ receives receiving (transfer 0 (6 ∷ []))
    ∷ exposes receiving
    ∷ terminates receiving requested
    ∷ []

run-new_endpoint-IsValid_example :
    (e : DeliveryEndpoint) × (run (new_endpoint small) calls ≡ some e) × IsValid e
run-new_endpoint-IsValid_example = run-new_endpoint-IsValid small calls

abbrev events : List Event
events =
    arrives (transfer 1 (7 ∷ []))
    ∷ polls
    ∷ arrives (transfer 0 (6 ∷ []))
    ∷ polls
    ∷ arrives (transfer 0 (6 ∷ []))
    ∷ polls
    ∷ []

abbrev established : List Call
established = establishes receiving reliable_ordered strict small ∷ []

abbrev or_new : Option DeliveryEndpoint → DeliveryEndpoint
or_new none = new_endpoint small
or_new (some e) = e

-- An endpoint with one inbound reliable flow.
abbrev opened : DeliveryEndpoint
unfolding new_endpoint run
opened = or_new (run (new_endpoint small) established)

opened_established :
    establish_flow (new_endpoint small) receiving reliable_ordered strict small
    ≡ some (opened, ok tt)
unfolding new_endpoint run step establish_flow establish validate_for_mode scope_takes add_to_scope
    can_add usage_add HashMap.get HashMap.insert
opened_established = refl

opened-IsReceiving : IsReceiving opened receiving [] (some 0)
opened-IsReceiving =
    establish_flow-IsReceiving (new_endpoint small) opened receiving strict small
      (new_endpoint-IsValid small) refl opened_established

deliveries-IsInOrder_example :
    (messages : List ExposedMessage) × (deliveries opened receiving events ≡ some messages)
    × IsInOrder 0 messages
deliveries-IsInOrder_example = deliveries-IsInOrder events opened receiving opened-IsReceiving

abbrev reordered : List DeliveryTransfer
reordered = transfer 1 (7 ∷ []) ∷ transfer 0 (6 ∷ []) ∷ transfer 1 (7 ∷ []) ∷ []

both_arrived : (i : ℕ) → i < 2 → is_some (first_with i reordered) ≡ true
unfolding first_with
both_arrived i h = ground arith

abbrev both_stored : DeliveryEndpoint
unfolding arrived
both_stored = or_new (arrived opened receiving reordered)

both_stored-arrived : arrived opened receiving reordered ≡ some both_stored
unfolding arrived receive receive_in_mode receive_reliable buffer_reliable duplicate_or_conflict
    can_add_pending change_pending with_scope with_session session_can_add flow_can_add BTreeMap.get
    BTreeMap.insert new_endpoint run step establish_flow establish validate_for_mode scope_takes
    add_to_scope can_add usage_add HashMap.get HashMap.insert
both_stored-arrived = refl

both_stored_there : is_some (HashMap.get both_stored.flows receiving) ≡ true
unfolding arrived receive receive_in_mode receive_reliable buffer_reliable duplicate_or_conflict
    can_add_pending change_pending with_scope with_session session_can_add flow_can_add BTreeMap.get
    BTreeMap.insert new_endpoint run step establish_flow establish validate_for_mode scope_takes
    add_to_scope can_add usage_add HashMap.get HashMap.insert
both_stored_there = refl

reordered_exposures_example :
    (messages : List ExposedMessage) × (deliveries opened receiving
        (map arrives reordered ++ repeated_polls 2)
      ≡ some messages)
    × (map some messages ≡ wanted_messages 0 2 reordered)
reordered_exposures_example =
    reordered_exposures reordered 2 opened both_stored receiving opened-IsReceiving
      both_stored-arrived both_stored_there (omega arith) both_arrived

terminate_connection-run_example :
    (e : DeliveryEndpoint) × (e' : DeliveryEndpoint) × (ts : List FlowTermination) × (run
        (new_endpoint small)
        calls
      ≡ some e)
    × (terminate_connection e 10 ≡ some (e', ts))
    × (HashMap.get e'.flows receiving
        ≡ (if receiving.connection == 10 then none else HashMap.get e.flows receiving))
terminate_connection-run_example = terminate_connection-run small calls 10 receiving
