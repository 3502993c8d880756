-- ===== src/Delivery/Opening.antt =====
-- delivery.rs: a flow that was just established.
use runen_net.Prelude.{◌≡◌, refl, sym, ap, ◌∙◌, false, some, [], arith, nat_eq, ok}
use mathlib.Core.Path.{subst}
use mathlib.Core.Option.{some-injective}
use runen_net.Collections.HashMap
use runen_net.Delivery.{DeliveryMode, reliable_ordered}
use runen_net.Delivery.Types.{
  DeliveryFlowKey, flow_key_eq, is_outbound, FlowResourcePolicy, DeliveryScopeLimits,
  DeliveryEndpoint, new_flow,
}
use runen_net.Delivery.Flows.{establish_flow, establish}
use runen_net.Delivery.Invariant.{IsValid}
use runen_net.Delivery.Joining.{establish_flow-Keeps}
use runen_net.Delivery.Delivering.{IsReceiving}

establish_flow-get :
    (e e' : DeliveryEndpoint) (key : DeliveryFlowKey) (mode : DeliveryMode)
    (policy : FlowResourcePolicy) (limits : DeliveryScopeLimits)
    → establish_flow e key mode policy limits ≡ some (e', ok tt)
    → HashMap.get e'.flows key ≡ some (new_flow mode policy)
unfolding establish_flow establish
establish_flow-get e e' key mode policy limits h =
    ground (arith, HashMap.get-insert e.flows key key (new_flow mode policy))

pub establish_flow-IsReceiving :
    (e e' : DeliveryEndpoint) (key : DeliveryFlowKey) (policy : FlowResourcePolicy)
    (limits : DeliveryScopeLimits)
    → IsValid e
    → is_outbound key.direction ≡ false
    → establish_flow e key reliable_ordered policy limits ≡ some (e', ok tt)
    → IsReceiving e' key [] (some 0)
establish_flow-IsReceiving e e' key policy limits v incoming h =
    let (kept, a, q, valid) = establish_flow-Keeps e key reliable_ordered policy limits v in
    record {
      flow = new_flow reliable_ordered policy;
      valid =
          subst IsValid (ap (λ x. x.0) (some-injective (kept, a) (e', ok tt) (sym q ∙ h))) valid;
      incoming = incoming;
      found = establish_flow-get e e' key reliable_ordered policy limits h;
      buffer = refl;
    }
