-- ===== src/Delivery/History.antt =====
-- delivery.rs: histories of calls on an endpoint, from `DeliveryEndpoint::new`.
use runen_net.Prelude.{ℕ, ◌≡◌, refl, Option, none, some, List, [], ◌∷◌}
use runen_net.Session.State.{Session}
use runen_net.Delivery.{DeliveryMode}
use runen_net.Delivery.Types.{
  DeliveryFlowKey, FlowResourcePolicy, DeliveryScopeLimits, DeliveryTransfer, DeliveryEndpoint,
  new_endpoint,
}
use runen_net.Delivery.Flows.{
  FlowTerminationReason, establish_flow, associate_flow_with_session, terminate_flow,
}
use runen_net.Delivery.Sending.{submit, commit_outbound_custody}
use runen_net.Delivery.Receiving.{receive}
use runen_net.Delivery.Exposure.{poll_exposure}
use runen_net.Delivery.Ending.{
  receive_transport_payload, fail_reliable_custody, terminate_connection,
  receive_transport_payload-Keeps, fail_reliable_custody-Keeps, terminate_connection-Keeps,
}
use runen_net.Delivery.Invariant.{IsValid, Keeps, new_endpoint-IsValid}
use runen_net.Delivery.Submission.{submit-Keeps, commit_outbound_custody-Keeps}
use runen_net.Delivery.Polling.{poll_exposure-Keeps}
use runen_net.Delivery.Terminating.{terminate_flow-Keeps}
use runen_net.Delivery.Reception.{receive-Keeps}
use runen_net.Delivery.Joining.{establish_flow-Keeps}
use runen_net.Delivery.Association.{associate_flow_with_session-Keeps}

pub data Call : Type 0 where
  establishes : DeliveryFlowKey → DeliveryMode → FlowResourcePolicy → DeliveryScopeLimits → Call
  associates : DeliveryFlowKey → Session → DeliveryScopeLimits → Call
  submits : DeliveryFlowKey → List ℕ → Call
  commits : DeliveryFlowKey → ℕ → Call
  receives : DeliveryFlowKey → DeliveryTransfer → Call
  exposes : DeliveryFlowKey → Call
  terminates : DeliveryFlowKey → FlowTerminationReason → Call
  receives_payload : DeliveryFlowKey → ℕ → List ℕ → Call
  fails_custody : DeliveryFlowKey → Call
  ends_connection : (connection : ℕ) → Call

abbrev after : {A : Type 0} → Option (DeliveryEndpoint × A) → Option DeliveryEndpoint
after none = none
after (some (e, a)) = some e

-- `none` is a panic.
unfoldable pub step : DeliveryEndpoint → Call → Option DeliveryEndpoint
step e (establishes key mode policy limits) = after (establish_flow e key mode policy limits)
step e (associates key session limits) = after (associate_flow_with_session e key session limits)
step e (submits key payload) = after (submit e key payload)
step e (commits key index) = after (commit_outbound_custody e key index)
step e (receives key transfer) = after (receive e key transfer)
step e (exposes key) = after (poll_exposure e key)
step e (terminates key reason) = after (terminate_flow e key reason)
step e (receives_payload key index payload) = after (receive_transport_payload e key index payload)
step e (fails_custody key) = after (fail_reliable_custody e key)
step e (ends_connection connection) = after (terminate_connection e connection)

unfoldable pub run : DeliveryEndpoint → List Call → Option DeliveryEndpoint
run e [] = some e
run e (call ∷ calls) = elim (step e call) [ none ↦ none | some e' ↦ run e' calls ]

after-IsValid :
    {A : Type 0} (o : Option (DeliveryEndpoint × A))
    → Keeps o
    → (e' : DeliveryEndpoint) × (after o ≡ some e') × IsValid e'
after-IsValid o k = let (e', a, q, v) = k in (e', rw q refl, v)

step-IsValid :
    (e : DeliveryEndpoint) (call : Call)
    → IsValid e
    → (e' : DeliveryEndpoint) × (step e call ≡ some e') × IsValid e'
unfolding step
step-IsValid e (establishes key mode policy limits) v =
    after-IsValid (establish_flow e key mode policy limits)
      (establish_flow-Keeps e key mode policy limits v)
step-IsValid e (associates key session limits) v =
    after-IsValid (associate_flow_with_session e key session limits)
      (associate_flow_with_session-Keeps e key session limits v)
step-IsValid e (submits key payload) v =
    after-IsValid (submit e key payload) (submit-Keeps e key payload v)
step-IsValid e (commits key index) v =
    after-IsValid (commit_outbound_custody e key index)
      (commit_outbound_custody-Keeps e key index v)
step-IsValid e (receives key transfer) v =
    after-IsValid (receive e key transfer) (receive-Keeps e key transfer v)
step-IsValid e (exposes key) v = after-IsValid (poll_exposure e key) (poll_exposure-Keeps e key v)
step-IsValid e (terminates key reason) v =
    after-IsValid (terminate_flow e key reason) (terminate_flow-Keeps e key reason v)
step-IsValid e (receives_payload key index payload) v =
    after-IsValid (receive_transport_payload e key index payload)
      (receive_transport_payload-Keeps e key index payload v)
step-IsValid e (fails_custody key) v =
    after-IsValid (fail_reliable_custody e key) (fail_reliable_custody-Keeps e key v)
step-IsValid e (ends_connection connection) v =
    after-IsValid (terminate_connection e connection) (terminate_connection-Keeps e connection v)

run-IsValid :
    (calls : List Call) (e : DeliveryEndpoint)
    → IsValid e
    → (e' : DeliveryEndpoint) × (run e calls ≡ some e') × IsValid e'
unfolding run
run-IsValid [] e v = (e, refl, v)
run-IsValid (call ∷ calls) e v =
    let (e', q, w) = step-IsValid e call v in
    let (last, r, valid) = run-IsValid calls e' w in (last, rw (q, run) r, valid)

-- Any history of calls on a new endpoint runs without a panic, whatever is submitted and arrives, and
-- leaves it valid: the usage of the aggregate, of each connection and of each session is the sum over
-- its flows and within its limits, and each flow counts what it holds.
pub run-new_endpoint-IsValid :
    (limits : DeliveryScopeLimits) (calls : List Call)
    → (e : DeliveryEndpoint) × (run (new_endpoint limits) calls ≡ some e) × IsValid e
run-new_endpoint-IsValid limits calls =
    run-IsValid calls (new_endpoint limits) (new_endpoint-IsValid limits)
