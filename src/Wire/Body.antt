-- ===== src/Wire/Body.antt =====
-- wire.rs: the bodies of the flow control messages, written into an array of 24 bytes and read
-- back. `none` from a writer is a panic: a failed `expect` or a slice out of range.
pub mod Fields
pub mod Reading
pub mod Opening
pub mod Answering
pub mod Canonical
use mathlib.Core.Option
use runen_net.Prelude.{
  ℕ, ◌+◌, Option, none, some, List, [], ◌∷◌, ◌++◌, if◌then◌else◌, ltb, leb, ◌==◌, nat_eq, length,
  take, drop, Result, ok, err, map_err, ◌>>=◌, ◌>>◌,
}
use runen_net.Delivery.{DeliveryMode, reliable_ordered, unreliable_unordered, unreliable_sequenced}
use runen_net.Wire.VarInt.{
  max_varint, VarIntDecodeError, as_slice, encode_varint, decode_varint, zeros,
}
use runen_net.Wire.FlowId.{FlowId, FlowIdError, from_wire}

pub data FlowRejectReason : Type 0 where
  resource_limit message_limit : FlowRejectReason

pub data FlowTerminateReason : Type 0 where
  normal resource_failure protocol_failure reliable_delivery_failure : FlowTerminateReason

pub data ControlBodyError : Type 0 where
  var_int : VarIntDecodeError → ControlBodyError
  invalid_flow_id : FlowIdError → ControlBodyError
  unknown_delivery_mode unknown_reject_reason unknown_terminate_reason : ℕ → ControlBodyError
  zero_max_message_bytes max_message_bytes_out_of_range trailing_bytes : ControlBodyError

abbrev pub max_control_body_bytes : ℕ
max_control_body_bytes = 24

pub record BodyWriter : Type 0 where
  pub bytes : List ℕ
  pub len : ℕ

-- `EncodedControlBody::as_slice`; a finished body has the writer's fields.
abbrev pub body_slice : BodyWriter → List ℕ
body_slice w = take w.len w.bytes

abbrev pub new_writer : BodyWriter
new_writer = record { bytes = zeros max_control_body_bytes; len = 0 }

unfoldable pub push_varint : BodyWriter → ℕ → Option BodyWriter
push_varint w value = elim (encode_varint value) [
  | err e ↦ none
  | ok encoded ↦
      let end = w.len + encoded.len in
      if leb end max_control_body_bytes
      then some (record {
        bytes = take w.len w.bytes ++ (as_slice encoded ++ drop end w.bytes);
        len = end;
      })
      else none
]

-- A chain of `push_varint` calls.
unfoldable pub push_all : BodyWriter → List ℕ → Option BodyWriter
push_all w [] = some w
push_all w (v ∷ vs) = elim (push_varint w v) [ none ↦ none | some next ↦ push_all next vs ]

pub record BodyReader : Type 0 where
  pub input : List ℕ
  pub offset : ℕ

abbrev pub new_reader : List ℕ → BodyReader
new_reader input = record { input = input; offset = 0 }

unfoldable pub read_varint : BodyReader → Result (ℕ × BodyReader) ControlBodyError
read_varint r = do
  (value, consumed) ← map_err var_int (decode_varint (drop r.offset r.input))
  ok (value, record r { offset = r.offset + consumed })

unfoldable pub finish : BodyReader → Result (Unit {0}) ControlBodyError
finish r = if r.offset == length r.input then ok tt else err trailing_bytes

abbrev pub encode_delivery_mode : DeliveryMode → ℕ
encode_delivery_mode reliable_ordered = 0
encode_delivery_mode unreliable_unordered = 1
encode_delivery_mode unreliable_sequenced = 2

unfoldable pub decode_delivery_mode : ℕ → Result DeliveryMode ControlBodyError
decode_delivery_mode value =
    if value == 0
    then ok reliable_ordered
    else if value == 1
    then ok unreliable_unordered
    else if value == 2
    then ok unreliable_sequenced
    else err (unknown_delivery_mode value)

abbrev pub encode_reject_reason : FlowRejectReason → ℕ
encode_reject_reason resource_limit = 0
encode_reject_reason message_limit = 1

unfoldable pub decode_reject_reason : ℕ → Result FlowRejectReason ControlBodyError
decode_reject_reason value =
    if value == 0
    then ok resource_limit
    else if value == 1
    then ok message_limit
    else err (unknown_reject_reason value)

abbrev pub encode_terminate_reason : FlowTerminateReason → ℕ
encode_terminate_reason normal = 0
encode_terminate_reason resource_failure = 1
encode_terminate_reason protocol_failure = 2
encode_terminate_reason reliable_delivery_failure = 3

unfoldable pub decode_terminate_reason : ℕ → Result FlowTerminateReason ControlBodyError
decode_terminate_reason value =
    if value == 0
    then ok normal
    else if value == 1
    then ok resource_failure
    else if value == 2
    then ok protocol_failure
    else if value == 3
    then ok reliable_delivery_failure
    else err (unknown_terminate_reason value)

-- `FlowId::from_wire(reader.read_varint()?)?`.
unfoldable pub read_flow_id : BodyReader → Result (FlowId × BodyReader) ControlBodyError
read_flow_id r = do
  (value, next) ← read_varint r
  id ← map_err invalid_flow_id (from_wire value)
  ok (id, next)

pub record OpenFlow : Type 0 where
  pub flow_id : FlowId
  pub delivery_mode : DeliveryMode
  pub max_message_bytes : ℕ

unfoldable pub new_open_flow : FlowId → DeliveryMode → ℕ → Result OpenFlow ControlBodyError
new_open_flow flow_id delivery_mode max_message_bytes =
    if max_message_bytes == 0
    then err zero_max_message_bytes
    else if ltb max_varint max_message_bytes
    then err max_message_bytes_out_of_range
    else ok (record {
      flow_id = flow_id;
      delivery_mode = delivery_mode;
      max_message_bytes = max_message_bytes;
    })

unfoldable pub encode_open_flow : OpenFlow → Option BodyWriter
encode_open_flow m =
    push_all new_writer
      (m.flow_id.value ∷ encode_delivery_mode m.delivery_mode ∷ m.max_message_bytes ∷ [])

unfoldable pub decode_open_flow : List ℕ → Result OpenFlow ControlBodyError
decode_open_flow input = do
  (flow_id, r) ← read_flow_id (new_reader input)
  (mode, r') ← read_varint r
  delivery_mode ← decode_delivery_mode mode
  (max_message_bytes, last) ← read_varint r'
  (if max_message_bytes == 0 then err zero_max_message_bytes else ok tt)
  finish last
  ok (record {
    flow_id = flow_id;
    delivery_mode = delivery_mode;
    max_message_bytes = max_message_bytes;
  })

pub record FlowAccept : Type 0 where
  pub flow_id : FlowId

unfoldable pub encode_flow_accept : FlowAccept → Option BodyWriter
encode_flow_accept m = push_all new_writer (m.flow_id.value ∷ [])

unfoldable pub decode_flow_accept : List ℕ → Result FlowAccept ControlBodyError
decode_flow_accept input = do
  (flow_id, r) ← read_flow_id (new_reader input)
  finish r
  ok (record { flow_id = flow_id })

pub record FlowReject : Type 0 where
  pub flow_id : FlowId
  pub reason : FlowRejectReason

unfoldable pub encode_flow_reject : FlowReject → Option BodyWriter
encode_flow_reject m = push_all new_writer (m.flow_id.value ∷ encode_reject_reason m.reason ∷ [])

unfoldable pub decode_flow_reject : List ℕ → Result FlowReject ControlBodyError
decode_flow_reject input = do
  (flow_id, r) ← read_flow_id (new_reader input)
  (code, last) ← read_varint r
  reason ← decode_reject_reason code
  finish last
  ok (record { flow_id = flow_id; reason = reason })

pub record FlowTerminate : Type 0 where
  pub flow_id : FlowId
  pub reason : FlowTerminateReason

unfoldable pub encode_flow_terminate : FlowTerminate → Option BodyWriter
encode_flow_terminate m =
    push_all new_writer (m.flow_id.value ∷ encode_terminate_reason m.reason ∷ [])

unfoldable pub decode_flow_terminate : List ℕ → Result FlowTerminate ControlBodyError
decode_flow_terminate input = do
  (flow_id, r) ← read_flow_id (new_reader input)
  (code, last) ← read_varint r
  reason ← decode_terminate_reason code
  finish last
  ok (record { flow_id = flow_id; reason = reason })
