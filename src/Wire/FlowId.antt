-- ===== src/Wire/FlowId.antt =====
-- wire.rs: flow identities, and the cursor that hands them out or checks them in order.
pub mod Cursor
use runen_net.Prelude.{
  ℕ, ◌+◌, ◌*◌, ◌/◌, ◌%◌, ◌^◌, bit_and, bit_or, Option, none, some, if◌then◌else◌, ltb, ◌==◌, nat_eq,
  Bool, true, false, not, Result, ok, err,
}
use runen_net.Wire.VarInt.{max_varint}

abbrev pub max_flow_sequence : ℕ
max_flow_sequence = max_varint / 2

pub data WireSide : Type 0 where
  client server : WireSide

abbrev pub bit : WireSide → ℕ
bit client = 0
bit server = 1

abbrev pub from_bit : ℕ → WireSide
from_bit b = if b == 0 then client else server

abbrev pub same_side : WireSide → WireSide → Bool
same_side client client = true
same_side client server = false
same_side server client = false
same_side server server = true

pub data FlowIdError : Type 0 where
  sequence_out_of_range wire_value_out_of_range : FlowIdError

pub record FlowId : Type 0 where
  pub value : ℕ

-- `FlowId::new`.
unfoldable pub new_flow_id : WireSide → ℕ → Result FlowId FlowIdError
new_flow_id side sequence =
    if ltb max_flow_sequence sequence
    then err sequence_out_of_range
    else ok (record { value = bit_or (sequence * 2 ^ 1 % 2 ^ 64) (bit side) })

unfoldable pub from_wire : ℕ → Result FlowId FlowIdError
from_wire value =
    if ltb max_varint value then err wire_value_out_of_range else ok (record { value = value })

unfoldable pub side : FlowId → WireSide
side id = from_bit (bit_and id.value 1)

unfoldable pub sequence : FlowId → ℕ
sequence id = id.value / 2 ^ 1

pub data FlowIdCursorError : Type 0 where
  exhausted : FlowIdCursorError
  wrong_side : (expected received : WireSide) → FlowIdCursorError
  unexpected_sequence : (expected received : ℕ) → FlowIdCursorError

pub record FlowIdCursor : Type 0 where
  pub cursor_side : WireSide
  pub next_sequence : Option ℕ

unfoldable pub new_cursor : WireSide → FlowIdCursor
new_cursor s = record { cursor_side = s; next_sequence = some 0 }

unfoldable pub advance : FlowIdCursor → ℕ → FlowIdCursor
advance c n = record c { next_sequence = if n == max_flow_sequence then none else some (n + 1) }

-- `none` is the panic of the `expect`.
unfoldable pub allocate : FlowIdCursor → Option (FlowIdCursor × Result FlowId FlowIdCursorError)
unfolding advance
allocate c = elim c.next_sequence [
  | none ↦ some (c, err exhausted)
  | some n ↦ elim (new_flow_id c.cursor_side n) [ err e ↦ none | ok id ↦ some (advance c n, ok id) ]
]

unfoldable pub validate_and_consume :
    FlowIdCursor → FlowId → FlowIdCursor × Result (Unit {0}) FlowIdCursorError
unfolding advance
validate_and_consume c id = elim c.next_sequence [
  | none ↦ (c, err exhausted)
  | some expected ↦
      if not (same_side (side id) c.cursor_side)
      then (c, err (wrong_side c.cursor_side (side id)))
      else if not (sequence id == expected)
      then (c, err (unexpected_sequence expected (sequence id)))
      else (advance c expected, ok tt)
]
