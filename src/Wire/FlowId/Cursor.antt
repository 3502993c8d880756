-- ===== src/Wire/FlowId/Cursor.antt =====
-- wire.rs: an allocating cursor and a validating one.
use native.Mathlib.Nat.{mod-eq_of_lt}
use runen_net.Prelude.{
  ◌↔◌, Result, ℕ, ◌+◌, ◌*◌, ◌%◌, ◌^◌, ◌≤◌, ◌≡◌, refl, ap, ◌∙◌, bit_or, none, some, ok, err, arith,
  nat_eq, true,
}
use runen_net.Prelude.Bits.{bit_or_low, bit_and-one}
use runen_net.Wire.VarInt.{max_varint}
use runen_net.Wire.FlowId.{
  FlowIdCursorError, max_flow_sequence, WireSide, client, server, bit, same_side, FlowId,
  new_flow_id, from_wire, side, sequence, exhausted, FlowIdCursor, new_cursor, advance, allocate,
  validate_and_consume,
}

packed :
    (s : WireSide) (n : ℕ)
    → n ≤ max_flow_sequence
    → bit_or (n * 2 ^ 1 % 2 ^ 64) (bit s) ≡ n * 2 + bit s
packed client n h =
    ap (λ (x : ℕ). bit_or x 0) (mod-eq_of_lt {n = n * 2} {m = 2 ^ 64} (omega arith))
    ∙ bit_or_low 1 n 0 (omega arith)
packed server n h =
    ap (λ (x : ℕ). bit_or x 1) (mod-eq_of_lt {n = n * 2} {m = 2 ^ 64} (omega arith))
    ∙ bit_or_low 1 n 1 (omega arith)

-- The identity of a side and a sequence in range.
pub flow_id_of : WireSide → ℕ → FlowId
flow_id_of s n = record { value = n * 2 + bit s }

pub new_flow_id-ok :
    (s : WireSide) (n : ℕ) → n ≤ max_flow_sequence → new_flow_id s n ≡ ok (flow_id_of s n)
unfolding new_flow_id flow_id_of
new_flow_id-ok s n h = ground (arith, packed s n)

fields_side : (s : WireSide) (n : ℕ) → side (flow_id_of s n) ≡ s
unfolding side flow_id_of
fields_side client n = ground (arith, bit_and-one (n * 2 + 0))
fields_side server n = ground (arith, bit_and-one (n * 2 + 1))

fields_sequence : (s : WireSide) (n : ℕ) → sequence (flow_id_of s n) ≡ n
unfolding sequence flow_id_of
fields_sequence client n = omega arith
fields_sequence server n = omega arith

-- `FlowId::new` on a sequence in range gives an identity that fits a wire integer, that
-- `FlowId::from_wire` reads back, and whose side and sequence are the ones given.
pub new_flow_id-fields :
    (s : WireSide) (n : ℕ)
    → n ≤ max_flow_sequence
    → (id : FlowId) × (new_flow_id s n ≡ ok id)
      × (id.value ≤ max_varint)
      × (from_wire id.value ≡ ok id)
      × (side id ≡ s)
      × (sequence id ≡ n)
new_flow_id-fields s n h = (
  flow_id_of s n,
  new_flow_id-ok s n h,
  in_range s,
  unfold from_wire flow_id_of in ground (arith, in_range s),
  fields_side s n,
  fields_sequence s n,
)
  where
    in_range : (s : WireSide) → (flow_id_of s n).value ≤ max_varint
    in_range client = unfold flow_id_of in omega arith
    in_range server = unfold flow_id_of in omega arith

-- The next sequence is in range.
abbrev pub IsValid : FlowIdCursor → Type 0
IsValid c = (n : ℕ) → c.next_sequence ≡ some n → n ≤ max_flow_sequence

-- The only identity that a side and a sequence leave.
flow_id_unique :
    (id : FlowId) (s : WireSide) (n : ℕ) → side id ≡ s → sequence id ≡ n → id ≡ flow_id_of s n
unfolding side sequence flow_id_of
flow_id_unique id client n e f = ground (arith, bit_and-one id.value)
flow_id_unique id server n e f = ground (arith, bit_and-one id.value)

advance-IsValid : (c : FlowIdCursor) (n : ℕ) → n ≤ max_flow_sequence → IsValid (advance c n)
unfolding advance
advance-IsValid c n h m e = ground arith

pub new_cursor-IsValid : (s : WireSide) → IsValid (new_cursor s)
unfolding new_cursor
new_cursor-IsValid s m e = ground arith

validated :
    (c : FlowIdCursor) (n : ℕ) (id : FlowId)
    → c.next_sequence ≡ some n
    → side id ≡ c.cursor_side
    → sequence id ≡ n
    → validate_and_consume c id ≡ (advance c n, ok tt)
unfolding validate_and_consume
validated c n id e s q = rw e (ground (arith, same c.cursor_side))
  where
    same : (s : WireSide) → same_side s s ≡ true
    same client = refl
    same server = refl

accepted :
    (c : FlowIdCursor) (n : ℕ) (id : FlowId)
    → c.next_sequence ≡ some n
    → (validate_and_consume c id).1 ≡ ok tt
    → (side id ≡ c.cursor_side) × (sequence id ≡ n)
unfolding validate_and_consume
accepted c n id e h = (by_side (side id) c.cursor_side (ground arith), ground arith)
  where
    by_side : (s t : WireSide) → same_side s t ≡ true → s ≡ t
    by_side client client p = refl
    by_side client server p = cc
    by_side server client p = cc
    by_side server server p = refl

allocate_next :
    (c : FlowIdCursor) (n : ℕ)
    → IsValid c
    → c.next_sequence ≡ some n
    → allocate c ≡ some (advance c n, ok (flow_id_of c.cursor_side n))
unfolding allocate
allocate_next c n v e = rw (e, allocate) (rw (new_flow_id-ok c.cursor_side n (v n e)) refl)

-- A valid cursor with a next sequence does not panic: it hands out the identity of its side and
-- that sequence. Of all identities a peer's cursor in the same state accepts exactly that one, and
-- both cursors are then the same, valid one.
pub allocate-validate_and_consume :
    (c : FlowIdCursor) (n : ℕ)
    → IsValid c
    → c.next_sequence ≡ some n
    → (id : FlowId) × (next : FlowIdCursor) × (allocate c ≡ some (next, ok id))
      × (side id ≡ c.cursor_side)
      × (sequence id ≡ n)
      × (validate_and_consume c id ≡ (next, ok tt))
      × ((other : FlowId) → ((validate_and_consume c other).1 ≡ ok tt) ↔ (other ≡ id))
      × IsValid next
allocate-validate_and_consume c n v e = (
  flow_id_of c.cursor_side n,
  advance c n,
  allocate_next c n v e,
  fields_side c.cursor_side n,
  fields_sequence c.cursor_side n,
  taken,
  (λ other. (
    (λ h. let (s', q') = accepted c n other e h in flow_id_unique other c.cursor_side n s' q'),
    λ q.
        ap (λ (x : FlowId). (validate_and_consume c x).1) q
        ∙ ap (λ (x : FlowIdCursor × Result (Unit {0}) FlowIdCursorError). x.1) taken,
  )),
  advance-IsValid c n (v n e),
)
  where
    taken : validate_and_consume c (flow_id_of c.cursor_side n) ≡ (advance c n, ok tt)
    taken =
        validated c n (flow_id_of c.cursor_side n) e (fields_side c.cursor_side n)
          (fields_sequence c.cursor_side n)

-- A cursor at its end answers `Exhausted` to every allocation and every identity, and stays there.
pub exhausted_stays :
    (c : FlowIdCursor) (id : FlowId)
    → c.next_sequence ≡ none
    → (allocate c ≡ some (c, err exhausted)) × (validate_and_consume c id ≡ (c, err exhausted))
exhausted_stays c id e = (unfold allocate in rw e refl, unfold validate_and_consume in rw e refl)
