-- ===== src/Wire/Body/Fields.antt =====
-- wire.rs: one varint after another, written and read.
use mathlib.Core.List.{append_assoc, append-nil}
use runen_net.Prelude.{
  ◌<◌, ℕ, zero, suc, ◌+◌, ◌-◌, ◌*◌, ◌^◌, ◌≤◌, ◌≡◌, refl, sym, ap, ◌∙◌, some, List, [], ◌∷◌, ◌++◌,
  nat_eq, length, take, drop, All, Result, ok, err, arith, length-append, take-append,
}
use runen_net.Wire.VarInt.{
  max_varint, VarIntEncodeError, EncodedVarInt, as_slice, encode_varint, decode_varint,
}
use runen_net.Wire.VarInt.Big.{length-to_be_bytes}
use runen_net.Wire.VarInt.Encode.{tag, varint_len-code, encode_varint-bytes}
use runen_net.Wire.VarInt.RoundTrip.{code_cases, decode_varint-encode_varint}
use runen_net.Wire.Body.{
  BodyWriter, body_slice, new_writer, push_varint, push_all, max_control_body_bytes,
}

slice_of : Result EncodedVarInt VarIntEncodeError → List ℕ
slice_of (ok e) = as_slice e
slice_of (err e) = []

-- The bytes of one varint, and of a row of them.
pub wire_form : ℕ → List ℕ
unfolding slice_of
wire_form v = slice_of (encode_varint v)

abbrev pub wire_forms : List ℕ → List ℕ
wire_forms [] = []
wire_forms (v ∷ vs) = wire_form v ++ wire_forms vs

abbrev pub IsVarInt : ℕ → Type 0
IsVarInt v = v ≤ max_varint

-- What the writer has written so far.
pub record Written (w : BodyWriter) (s : List ℕ) : Type 0 where
  pub whole : length w.bytes ≡ max_control_body_bytes
  pub measured : w.len ≡ length s
  pub slice : take w.len w.bytes ≡ s

pub wire_form-encode :
    (v : ℕ) (e : EncodedVarInt) → encode_varint v ≡ ok e → wire_form v ≡ as_slice e
unfolding wire_form
wire_form-encode v e h = ap slice_of h

length-wire_form-le : (v : ℕ) → IsVarInt v → length (wire_form v) ≤ 8
length-wire_form-le v h =
    let (t, four, hm) = varint_len-code v h in
    let (e, ok_e, _, _, slice) = encode_varint-bytes t v four hm in
    let (split, seven) = code_cases t four in
    omega (
      arith,
      ap length (wire_form-encode v e ok_e ∙ slice),
      length-to_be_bytes (2 ^ t) (v + tag t),
      split,
      seven,
    )

pub decode_varint-wire_form :
    (v : ℕ) (rest : List ℕ)
    → IsVarInt v
    → decode_varint (wire_form v ++ rest) ≡ ok (v, length (wire_form v))
decode_varint-wire_form v rest h =
    let (e, ok_e, d, l, code) = decode_varint-encode_varint v rest h in
    let q : wire_form v ≡ as_slice e = wire_form-encode v e ok_e in
    ap (λ (s : List ℕ). decode_varint (s ++ rest)) q
    ∙ d
    ∙ ap (λ (k : ℕ). ok (v, k)) (sym l ∙ ap length (sym q))

length-drop : (n : ℕ) (xs : List ℕ) → length (drop n xs) ≡ length xs - n
length-drop zero xs = omega arith
length-drop (suc n) [] = omega arith
length-drop (suc n) (x ∷ xs) = omega (arith, length-drop n xs)

push_varint-Written :
    (w : BodyWriter) (s : List ℕ) (v : ℕ)
    → Written w s
    → IsVarInt v
    → length s + 8 ≤ 24
    → (w' : BodyWriter) × (push_varint w v ≡ some w') × Written w' (s ++ wire_form v)
unfolding push_varint
push_varint-Written w s v h hv room =
    (after, pushes, record { whole = whole'; measured = measured'; slice = slice' })
  where
    found :
        (e : EncodedVarInt) × (encode_varint v ≡ ok e)
        × (decode_varint (as_slice e ++ []) ≡ ok (v, e.len))
        × (length (as_slice e) ≡ e.len)
        × ((t : ℕ) × (t < 4) × (e.len ≡ 2 ^ t))
    found = decode_varint-encode_varint v [] hv

    e : EncodedVarInt
    e = found.0

    q : wire_form v ≡ as_slice e
    q = wire_form-encode v e found.1

    len_e : e.len ≡ length (wire_form v)
    len_e = sym found.3 ∙ ap length (sym q)

    after : BodyWriter
    after = record {
      bytes = take w.len w.bytes ++ (as_slice e ++ drop (w.len + e.len) w.bytes);
      len = w.len + e.len;
    }

    fits : w.len + e.len ≤ 24
    fits = omega (arith, h.measured, len_e, length-wire_form-le v hv, room)

    pushes : push_varint w v ≡ some after
    pushes = rw (found.1, push_varint) (ground (arith, fits))

    layout : after.bytes ≡ (s ++ wire_form v) ++ drop (w.len + e.len) w.bytes
    layout =
        ap (λ (x : List ℕ). x ++ (as_slice e ++ drop (w.len + e.len) w.bytes)) h.slice
        ∙ ap (λ (x : List ℕ). s ++ (x ++ drop (w.len + e.len) w.bytes)) (sym q)
        ∙ sym (append_assoc s (wire_form v) (drop (w.len + e.len) w.bytes))

    measured' : after.len ≡ length (s ++ wire_form v)
    measured' = omega (arith, h.measured, len_e, length-append s (wire_form v))

    whole' : length after.bytes ≡ 24
    whole' = omega (
      arith,
      ap length layout,
      length-append (s ++ wire_form v) (drop (w.len + e.len) w.bytes),
      length-drop (w.len + e.len) w.bytes,
      measured',
      h.whole,
      fits,
    )

    slice' : take after.len after.bytes ≡ s ++ wire_form v
    slice' =
        ap (take (w.len + e.len)) layout
        ∙ take-append (w.len + e.len) (s ++ wire_form v) _ (sym measured')

push_all-Written :
    (vs : List ℕ) (w : BodyWriter) (s : List ℕ)
    → Written w s
    → All IsVarInt vs
    → length s + 8 * length vs ≤ 24
    → (w' : BodyWriter) × (push_all w vs ≡ some w') × Written w' (s ++ wire_forms vs)
unfolding push_all
push_all-Written [] w s h a room = (
  w,
  refl,
  record {
    whole = h.whole;
    measured = h.measured ∙ ap length (sym (append-nil s));
    slice = h.slice ∙ sym (append-nil s);
  },
)
push_all-Written (v ∷ vs) w s h a room =
    let (next, pushes, h') = push_varint-Written w s v h a.0 (omega arith) in
    let (last, rest, h'') =
      push_all-Written vs next (s ++ wire_form v) h' a.1
        (omega (arith, length-append s (wire_form v), length-wire_form-le v a.0)) in
    (
      last,
      rw (pushes, push_all) rest,
      record {
        whole = h''.whole;
        measured = h''.measured ∙ ap length (append_assoc s (wire_form v) (wire_forms vs));
        slice = h''.slice ∙ append_assoc s (wire_form v) (wire_forms vs);
      },
    )

-- Up to three varints fill a body, with no panic, by their bytes one after the other.
pub push_all-new :
    (vs : List ℕ)
    → All IsVarInt vs
    → length vs ≤ 3
    → (w : BodyWriter) × (push_all new_writer vs ≡ some w) × (body_slice w ≡ wire_forms vs)
push_all-new vs a h =
    let (w, pushes, q) =
      push_all-Written vs new_writer [] (record { whole = refl; measured = refl; slice = refl }) a
        (omega arith) in
    (w, pushes, q.slice)
