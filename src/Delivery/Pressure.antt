-- ===== src/Delivery/Pressure.antt =====
-- delivery.rs: the eviction loops of `submit` and `receive_unreliable`.
use runen_net.Prelude.{
  ℕ, Bool, true, false, Option, none, some, List, [], ◌∷◌, saturating_add, nat_eq,
}
use runen_net.Collections.HashMap
use runen_net.Delivery.Types.{
  DeliveryFlowKey, flow_key_eq, DeliveryTransfer, payload_len, ReceiverBuffer, FlowState,
  DeliveryEndpoint,
}
use runen_net.Delivery.Accounting.{can_add_pending, remove_pending, put_flow}

abbrev pub with_outbound : FlowState → List DeliveryTransfer → FlowState
with_outbound f queue = record f { outbound = queue }

abbrev pub with_inbound : Option ℕ → FlowState → List DeliveryTransfer → FlowState
with_inbound last f queue = record f { receiver = ReceiverBuffer.unreliable queue last }

-- The queue loses its oldest messages until one of `bytes` fits; with the drops, and whether it fits.
-- `queue` is the flow's own, which `with_queue` replaces.
unfoldable pub evict_until_fits :
    (FlowState → List DeliveryTransfer → FlowState)
    → List DeliveryTransfer
    → DeliveryEndpoint
    → DeliveryFlowKey
    → ℕ
    → ℕ
    → Option (DeliveryEndpoint × ℕ × Bool)
evict_until_fits with_queue [] e key bytes drops = elim (HashMap.get e.flows key) [
  | none ↦ none
  | some f ↦ elim (can_add_pending e key f 1 bytes) [
    | none ↦ none
    | some fits ↦ some (e, drops, fits)
  ]
]
evict_until_fits with_queue (oldest ∷ queue) e key bytes drops = elim (HashMap.get e.flows key) [
  | none ↦ none
  | some f ↦ elim (can_add_pending e key f 1 bytes) [
    | none ↦ none
    | some fits ↦ elim fits [
      | true ↦ some (e, drops, true)
      | false ↦
          elim (remove_pending (put_flow e key (with_queue f queue)) key 1 (payload_len oldest)) [
            | none ↦ none
            | some e' ↦ evict_until_fits with_queue queue e' key bytes (saturating_add drops 1)
          ]
    ]
  ]
]
