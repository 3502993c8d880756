-- ===== src/Wire/Body/Canonical.antt =====
-- wire.rs: what is encoded of a flow control body that was decoded.
use runen_net.Prelude.{ℕ, ◌≤◌, ◌≡◌, sym, ◌∙◌, some, List, nat_eq, length, All, ok, arith}
use runen_net.Wire.VarInt.Big.{IsByte}
use runen_net.Wire.Body.{
  BodyWriter, body_slice, new_writer, push_all, OpenFlow, encode_open_flow, decode_open_flow,
  FlowAccept, encode_flow_accept, decode_flow_accept, FlowReject, encode_flow_reject,
  decode_flow_reject, FlowTerminate, encode_flow_terminate, decode_flow_terminate,
}
use runen_net.Wire.Body.Fields.{wire_forms, IsVarInt, push_all-new}
use runen_net.Wire.Body.Opening.{IsFlowId, IsOpenFlow, mode_small, decode_open_flow-ok}
use runen_net.Wire.Body.Answering.{
  reject_small, terminate_small, decode_flow_accept-ok, decode_flow_reject-ok,
  decode_flow_terminate-ok,
}

-- The bytes that a message is written as are the input that was decoded.
rewritten :
    (input : List ℕ) (vs : List ℕ)
    → All IsVarInt vs
    → length vs ≤ 3
    → input ≡ wire_forms vs
    → (w : BodyWriter) × (push_all new_writer vs ≡ some w) × (body_slice w ≡ input)
rewritten input vs a h q = let (w, e, s) = push_all-new vs a h in (w, e, s ∙ sym q)

-- Bytes that decode to an `OpenFlow` are exactly the bytes that it is encoded as, and it is well formed: it
-- has no second encoding, and no accepted body has bytes left over.
pub encode_open_flow-decode_open_flow :
    (input : List ℕ) (m : OpenFlow)
    → All IsByte input
    → decode_open_flow input ≡ ok m
    → IsOpenFlow m × ((w : BodyWriter) × (encode_open_flow m ≡ some w) × (body_slice w ≡ input))
unfolding encode_open_flow
encode_open_flow-decode_open_flow input m bytes h =
    let (v, q) = decode_open_flow-ok input m bytes h in
    (
      v,
      rewritten input _ (v.identified, (mode_small m.delivery_mode, (v.bounded, tt))) (omega arith)
          q,
    )

-- Bytes that decode to a `FlowAccept` are exactly the bytes that it is encoded as, and it is well formed: it
-- has no second encoding, and no accepted body has bytes left over.
pub encode_flow_accept-decode_flow_accept :
    (input : List ℕ) (m : FlowAccept)
    → All IsByte input
    → decode_flow_accept input ≡ ok m
    → IsFlowId m.flow_id
      × ((w : BodyWriter) × (encode_flow_accept m ≡ some w) × (body_slice w ≡ input))
unfolding encode_flow_accept
encode_flow_accept-decode_flow_accept input m bytes h =
    let (v, q) = decode_flow_accept-ok input m bytes h in
    (v, rewritten input _ (v, tt) (omega arith) q)

-- Bytes that decode to a `FlowReject` are exactly the bytes that it is encoded as, and it is well formed: it
-- has no second encoding, and no accepted body has bytes left over.
pub encode_flow_reject-decode_flow_reject :
    (input : List ℕ) (m : FlowReject)
    → All IsByte input
    → decode_flow_reject input ≡ ok m
    → IsFlowId m.flow_id
      × ((w : BodyWriter) × (encode_flow_reject m ≡ some w) × (body_slice w ≡ input))
unfolding encode_flow_reject
encode_flow_reject-decode_flow_reject input m bytes h =
    let (v, q) = decode_flow_reject-ok input m bytes h in
    (v, rewritten input _ (v, (reject_small m.reason, tt)) (omega arith) q)

-- Bytes that decode to a `FlowTerminate` are exactly the bytes that it is encoded as, and it is well formed: it
-- has no second encoding, and no accepted body has bytes left over.
pub encode_flow_terminate-decode_flow_terminate :
    (input : List ℕ) (m : FlowTerminate)
    → All IsByte input
    → decode_flow_terminate input ≡ ok m
    → IsFlowId m.flow_id
      × ((w : BodyWriter) × (encode_flow_terminate m ≡ some w) × (body_slice w ≡ input))
unfolding encode_flow_terminate
encode_flow_terminate-decode_flow_terminate input m bytes h =
    let (v, q) = decode_flow_terminate-ok input m bytes h in
    (v, rewritten input _ (v, (terminate_small m.reason, tt)) (omega arith) q)
