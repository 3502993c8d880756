-- ===== src/Wire/Body/Opening.antt =====
-- wire.rs: the body of `OpenFlow`, written and read back.
use mathlib.Core.Path.{ap₂, subst}
use runen_net.Prelude.{
  ℕ, ◌<◌, ◌≡◌, refl, sym, ap, ◌∙◌, some, List, [], ◌∷◌, ◌++◌, if◌then◌else◌, ◌==◌, nat_eq, All, ok,
  err, arith, bind_ok, ok-injective,
}
use runen_net.Delivery.{DeliveryMode, reliable_ordered, unreliable_unordered, unreliable_sequenced}
use runen_net.Wire.VarInt.Big.{IsByte}
use runen_net.Wire.FlowId.{FlowId, from_wire}
use runen_net.Wire.Body.{
  zero_max_message_bytes, BodyWriter, body_slice, BodyReader, new_reader, read_varint, finish,
  read_flow_id, encode_delivery_mode, decode_delivery_mode, OpenFlow, encode_open_flow,
  decode_open_flow,
}
use runen_net.Wire.Body.Fields.{wire_form, wire_forms, IsVarInt, push_all-new}
use runen_net.Wire.Body.Reading.{
  At, new_reader-At, read_varint-At, finish-At, finish-ok, read_varint-ok,
}

-- A flow identity that fits a wire integer, as its constructors ensure.
abbrev pub IsFlowId : FlowId → Type 0
IsFlowId id = IsVarInt id.value

pub record IsOpenFlow (m : OpenFlow) : Type 0 where
  pub identified : IsFlowId m.flow_id
  pub positive : 0 < m.max_message_bytes
  pub bounded : IsVarInt m.max_message_bytes

pub read_flow_id-At :
    (r : BodyReader) (id : FlowId) (rest : List ℕ)
    → IsFlowId id
    → At r (wire_form id.value ++ rest)
    → (next : BodyReader) × (read_flow_id r ≡ ok (id, next)) × At next rest
unfolding read_flow_id from_wire
read_flow_id-At r id rest h a =
    let (next, e, b) = read_varint-At r id.value rest h a in
    (next, rw (e, read_flow_id) (ground arith), b)

pub read_flow_id-ok :
    {C : Type 0} (r : BodyReader) (rest : List ℕ) (id : FlowId) (next : BodyReader)
    → At r rest
    → All IsByte rest
    → read_flow_id r ≡ ok (id, next)
    → (IsFlowId id
        → (last : List ℕ) → rest ≡ wire_form id.value ++ last
        → At next last
        → All IsByte last
        → C)
    → C
unfolding read_flow_id from_wire
read_flow_id-ok {C} r rest id next a bytes h k = bind_ok (read_varint r) _ h λ (v, r') e h'.
    let (small, (last, q, at, b)) = read_varint-ok r rest v r' a bytes e in
    let p : v ≡ id.value = ground arith in
    let p' : r' ≡ next = ground arith in
    k (rw p at small) last (q ∙ ap (λ (x : ℕ). wire_form x ++ last) p) (rw p' at at) b

pub from_slice : (input : List ℕ) {forms : List ℕ} → input ≡ forms → At (new_reader input) forms
from_slice input e = subst (At (new_reader input)) e (new_reader-At input)

decode_delivery_mode-encode :
    (mode : DeliveryMode) → decode_delivery_mode (encode_delivery_mode mode) ≡ ok mode
unfolding decode_delivery_mode
decode_delivery_mode-encode reliable_ordered = refl
decode_delivery_mode-encode unreliable_unordered = refl
decode_delivery_mode-encode unreliable_sequenced = refl

pub mode_small : (mode : DeliveryMode) → IsVarInt (encode_delivery_mode mode)
mode_small reliable_ordered = omega arith
mode_small unreliable_unordered = omega arith
mode_small unreliable_sequenced = omega arith

encode_delivery_mode-decode :
    (v : ℕ) (mode : DeliveryMode) → decode_delivery_mode v ≡ ok mode → encode_delivery_mode mode ≡ v
unfolding decode_delivery_mode
encode_delivery_mode-decode v mode h = ground arith

decode_open_flow-forms :
    (input : List ℕ) (m : OpenFlow)
    → IsOpenFlow m
    → At (new_reader input) (
        wire_forms
          (m.flow_id.value ∷ encode_delivery_mode m.delivery_mode ∷ m.max_message_bytes ∷ []))
    → decode_open_flow input ≡ ok m
unfolding decode_open_flow
decode_open_flow-forms input m v a0 =
    let (r1, e1, a1) = read_flow_id-At (new_reader input) m.flow_id _ v.identified a0 in
    let (r2, e2, a2) =
      read_varint-At r1 (encode_delivery_mode m.delivery_mode) _ (mode_small m.delivery_mode) a1 in
    let e3 = decode_delivery_mode-encode m.delivery_mode in
    let (r4, e4, a4) = read_varint-At r2 m.max_message_bytes _ v.bounded a2 in
    let e5 = finish-At r4 a4 in ground (arith, e1, e2, e3, e4, e5, v.positive)

-- An `OpenFlow` with a flow identity and a positive size limit that each fit a wire integer is
-- encoded without a panic, and decoding the encoded body returns it.
pub decode_open_flow-encode_open_flow :
    (m : OpenFlow)
    → IsOpenFlow m
    → (w : BodyWriter) × (encode_open_flow m ≡ some w) × (decode_open_flow (body_slice w) ≡ ok m)
unfolding encode_open_flow
decode_open_flow-encode_open_flow m v =
    let (w, e, q) =
      push_all-new
        (m.flow_id.value ∷ encode_delivery_mode m.delivery_mode ∷ m.max_message_bytes ∷ [])
        (v.identified, (mode_small m.delivery_mode, (v.bounded, tt))) (omega arith) in
    (w, e, decode_open_flow-forms (body_slice w) m v (from_slice (body_slice w) q))

-- An accepted body is the row of varints that its message is written as.
pub decode_open_flow-ok :
    (input : List ℕ) (m : OpenFlow)
    → All IsByte input
    → decode_open_flow input ≡ ok m
    → IsOpenFlow m
      × (input
          ≡ wire_forms
              (m.flow_id.value ∷ encode_delivery_mode m.delivery_mode ∷ m.max_message_bytes ∷ []))
unfolding decode_open_flow
decode_open_flow-ok input m bytes h =
    bind_ok (read_flow_id (new_reader input)) _ h λ (id, r1) e1 k1.
      bind_ok (read_varint r1) _ k1 λ (code, r2) e2 k2.
        bind_ok (decode_delivery_mode code) _ k2 λ mode e3 k3.
          bind_ok (read_varint r2) _ k3 λ (size, r4) e4 k4.
            bind_ok (if size == 0 then err zero_max_message_bytes else ok tt) _ k4 λ u e5 k5.
              bind_ok (finish r4) _ k5 λ u' e6 k6.
                read_flow_id-ok (new_reader input) input id r1 (new_reader-At input) bytes e1
                  λ id_ok rest1 q1 a1 b1.
                    let (code_ok, (rest2, q2, a2, b2)) = read_varint-ok r1 rest1 code r2 a1 b1 e2 in
                    let (size_ok, (rest4, q4, a4, b4)) = read_varint-ok r2 rest2 size r4 a2 b2 e4 in
                    let q6 = finish-ok r4 rest4 a4 e6 in
                    subst
                      (λ (x : OpenFlow).
                        IsOpenFlow x
                        × (input
                            ≡ wire_forms (
                                x.flow_id.value
                                ∷ encode_delivery_mode x.delivery_mode
                                ∷ x.max_message_bytes
                                ∷ [])))
                      (ok-injective k6)
                      (
                        record { identified = id_ok; positive = ground arith; bounded = size_ok },
                        q1
                            ∙ ap (◌++◌ (wire_form id.value)) (
                                q2
                                ∙ ap₂ ◌++◌
                                    (ap wire_form (sym (encode_delivery_mode-decode code mode e3)))
                                    (q4 ∙ ap (◌++◌ (wire_form size)) q6)),
                      )
