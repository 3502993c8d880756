-- ===== src/Wire/Witnesses.antt =====
-- wire.rs: the theorems on the encodings, at concrete values.
use runen_net.Prelude.{
  ◌^◌, ◌<◌, ℕ, ◌≤◌, ◌≡◌, ◌↔◌, refl, none, some, List, [], ◌∷◌, ◌++◌, arith, nat_eq, take, length,
  ok,
}
use runen_net.Delivery.{unreliable_sequenced}
use runen_net.Wire.VarInt.{
  EncodedVarInt, max_varint, as_slice, encode_varint, decode_varint, read_bytes,
}
use runen_net.Wire.VarInt.RoundTrip.{decode_varint-encode_varint}
use runen_net.Wire.VarInt.Canonical.{encode_varint-decode_varint}
use runen_net.Wire.FlowId.{
  FlowId, FlowIdCursor, client, from_wire, side, sequence, allocate, validate_and_consume,
}
use runen_net.Wire.FlowId.Cursor.{IsValid, allocate-validate_and_consume}
use runen_net.Wire.Body.{
  BodyWriter, body_slice, read_flow_id, read_varint, new_reader, finish, decode_delivery_mode,
  decode_reject_reason, decode_terminate_reason, message_limit, protocol_failure, OpenFlow,
  encode_open_flow, decode_open_flow, FlowAccept, encode_flow_accept, decode_flow_accept,
  FlowReject, encode_flow_reject, decode_flow_reject, FlowTerminate, encode_flow_terminate,
  decode_flow_terminate,
}
use runen_net.Wire.Body.Opening.{IsFlowId, IsOpenFlow, decode_open_flow-encode_open_flow}
use runen_net.Wire.Body.Answering.{
  decode_flow_accept-encode_flow_accept, decode_flow_reject-encode_flow_reject,
  decode_flow_terminate-encode_flow_terminate,
}
use runen_net.Wire.Body.Canonical.{
  encode_open_flow-decode_open_flow, encode_flow_accept-decode_flow_accept,
  encode_flow_reject-decode_flow_reject, encode_flow_terminate-decode_flow_terminate,
}

decode_varint-encode_varint_example :
    (e : EncodedVarInt) × (encode_varint 300 ≡ ok e)
    × (decode_varint (as_slice e ++ (7 ∷ [])) ≡ ok (300, e.len))
    × (length (as_slice e) ≡ e.len)
    × ((t : ℕ) × (t < 4) × (e.len ≡ 2 ^ t))
decode_varint-encode_varint_example = decode_varint-encode_varint 300 (7 ∷ []) (omega arith)

decoded_300 : decode_varint (65 ∷ 44 ∷ 7 ∷ []) ≡ ok (300, 2)
unfolding decode_varint read_bytes
decoded_300 = refl

encode_varint-decode_varint_example :
    (300 ≤ max_varint)
    × (2 ≤ length {A = ℕ} (65 ∷ 44 ∷ 7 ∷ []))
    × ((e : EncodedVarInt) × (encode_varint 300 ≡ ok e) × (as_slice e ≡ take 2 (65 ∷ 44 ∷ 7 ∷ [])))
encode_varint-decode_varint_example =
    encode_varint-decode_varint (65 ∷ 44 ∷ 7 ∷ []) 300 2
      (omega arith, (omega arith, (omega arith, tt))) decoded_300

abbrev sixth : FlowIdCursor
sixth = record { cursor_side = client; next_sequence = some 6 }

sixth-IsValid : IsValid sixth
sixth-IsValid n e = ground arith

allocate-validate_and_consume_example :
    (id : FlowId) × (next : FlowIdCursor) × (allocate sixth ≡ some (next, ok id))
    × (side id ≡ client)
    × (sequence id ≡ 6)
    × (validate_and_consume sixth id ≡ (next, ok tt))
    × ((other : FlowId) → ((validate_and_consume sixth other).1 ≡ ok tt) ↔ (other ≡ id))
    × IsValid next
allocate-validate_and_consume_example = allocate-validate_and_consume sixth 6 sixth-IsValid refl

abbrev at_end : FlowIdCursor
at_end = record { cursor_side = client; next_sequence = none }

abbrev flow_5 : FlowId
flow_5 = record { value = 5 }

abbrev opening : OpenFlow
opening = record { flow_id = flow_5; delivery_mode = unreliable_sequenced; max_message_bytes = 300 }

abbrev opening_bytes : List ℕ
opening_bytes = 5 ∷ 2 ∷ 65 ∷ 44 ∷ []

decode_open_flow-encode_open_flow_example :
    (w : BodyWriter) × (encode_open_flow opening ≡ some w)
    × (decode_open_flow (body_slice w) ≡ ok opening)
decode_open_flow-encode_open_flow_example =
    decode_open_flow-encode_open_flow opening
      (record { identified = omega arith; positive = omega arith; bounded = omega arith })

opening_decoded : decode_open_flow opening_bytes ≡ ok opening
unfolding decode_open_flow read_flow_id read_varint finish new_reader decode_varint read_bytes
    from_wire decode_delivery_mode
opening_decoded = refl

encode_open_flow-decode_open_flow_example :
    IsOpenFlow opening
    × ((w : BodyWriter) × (encode_open_flow opening ≡ some w) × (body_slice w ≡ opening_bytes))
encode_open_flow-decode_open_flow_example =
    encode_open_flow-decode_open_flow opening_bytes opening
      (omega arith, (omega arith, (omega arith, (omega arith, tt)))) opening_decoded

abbrev accepting : FlowAccept
accepting = record { flow_id = flow_5 }

abbrev accepting_bytes : List ℕ
accepting_bytes = 5 ∷ []

decode_flow_accept-encode_flow_accept_example :
    (w : BodyWriter) × (encode_flow_accept accepting ≡ some w)
    × (decode_flow_accept (body_slice w) ≡ ok accepting)
decode_flow_accept-encode_flow_accept_example =
    decode_flow_accept-encode_flow_accept accepting (omega arith)

accepting_decoded : decode_flow_accept accepting_bytes ≡ ok accepting
unfolding decode_flow_accept read_flow_id read_varint finish new_reader decode_varint read_bytes
    from_wire
accepting_decoded = refl

encode_flow_accept-decode_flow_accept_example :
    IsFlowId flow_5
    × ((w : BodyWriter) × (encode_flow_accept accepting ≡ some w)
        × (body_slice w ≡ accepting_bytes))
encode_flow_accept-decode_flow_accept_example =
    encode_flow_accept-decode_flow_accept accepting_bytes accepting (omega arith, tt)
      accepting_decoded

abbrev rejecting : FlowReject
rejecting = record { flow_id = flow_5; reason = message_limit }

abbrev rejecting_bytes : List ℕ
rejecting_bytes = 5 ∷ 1 ∷ []

decode_flow_reject-encode_flow_reject_example :
    (w : BodyWriter) × (encode_flow_reject rejecting ≡ some w)
    × (decode_flow_reject (body_slice w) ≡ ok rejecting)
decode_flow_reject-encode_flow_reject_example =
    decode_flow_reject-encode_flow_reject rejecting (omega arith)

rejecting_decoded : decode_flow_reject rejecting_bytes ≡ ok rejecting
unfolding decode_flow_reject read_flow_id read_varint finish new_reader decode_varint read_bytes
    from_wire decode_reject_reason
rejecting_decoded = refl

encode_flow_reject-decode_flow_reject_example :
    IsFlowId flow_5
    × ((w : BodyWriter) × (encode_flow_reject rejecting ≡ some w)
        × (body_slice w ≡ rejecting_bytes))
encode_flow_reject-decode_flow_reject_example =
    encode_flow_reject-decode_flow_reject rejecting_bytes rejecting (omega arith, (omega arith, tt))
      rejecting_decoded

abbrev terminating : FlowTerminate
terminating = record { flow_id = flow_5; reason = protocol_failure }

abbrev terminating_bytes : List ℕ
terminating_bytes = 5 ∷ 2 ∷ []

decode_flow_terminate-encode_flow_terminate_example :
    (w : BodyWriter) × (encode_flow_terminate terminating ≡ some w)
    × (decode_flow_terminate (body_slice w) ≡ ok terminating)
decode_flow_terminate-encode_flow_terminate_example =
    decode_flow_terminate-encode_flow_terminate terminating (omega arith)

terminating_decoded : decode_flow_terminate terminating_bytes ≡ ok terminating
unfolding decode_flow_terminate read_flow_id read_varint finish new_reader decode_varint read_bytes
    from_wire decode_terminate_reason
terminating_decoded = refl

encode_flow_terminate-decode_flow_terminate_example :
    IsFlowId flow_5
    × ((w : BodyWriter) × (encode_flow_terminate terminating ≡ some w)
        × (body_slice w ≡ terminating_bytes))
encode_flow_terminate-decode_flow_terminate_example =
    encode_flow_terminate-decode_flow_terminate terminating_bytes terminating
      (omega arith, (omega arith, tt)) terminating_decoded
