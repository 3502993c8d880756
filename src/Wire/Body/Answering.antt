-- ===== src/Wire/Body/Answering.antt =====
-- wire.rs: the bodies of `FlowAccept`, `FlowReject` and `FlowTerminate`, written and read back.
use mathlib.Core.Path.{ap₂, subst}
use runen_net.Prelude.{
  ℕ, ◌≡◌, refl, sym, ap, ◌∙◌, some, List, [], ◌∷◌, ◌++◌, nat_eq, All, ok, arith, bind_ok,
  ok-injective,
}
use runen_net.Wire.VarInt.Big.{IsByte}
use runen_net.Wire.Body.{
  BodyWriter, body_slice, new_reader, read_varint, finish, read_flow_id, encode_reject_reason,
  decode_reject_reason, encode_terminate_reason, decode_terminate_reason, FlowRejectReason,
  resource_limit, message_limit, FlowTerminateReason, normal, resource_failure, protocol_failure,
  reliable_delivery_failure, FlowAccept, encode_flow_accept, decode_flow_accept, FlowReject,
  encode_flow_reject, decode_flow_reject, FlowTerminate, encode_flow_terminate,
  decode_flow_terminate,
}
use runen_net.Wire.Body.Fields.{wire_form, wire_forms, IsVarInt, push_all-new}
use runen_net.Wire.Body.Reading.{
  new_reader-At, read_varint-At, finish-At, finish-ok, read_varint-ok,
}
use runen_net.Wire.Body.Opening.{IsFlowId, read_flow_id-At, read_flow_id-ok, from_slice}

-- A `FlowAccept` whose flow identity fits a wire integer is encoded without a panic, and decoding
-- the encoded body returns it.
pub decode_flow_accept-encode_flow_accept :
    (m : FlowAccept)
    → IsFlowId m.flow_id
    → (w : BodyWriter) × (encode_flow_accept m ≡ some w)
      × (decode_flow_accept (body_slice w) ≡ ok m)
unfolding encode_flow_accept decode_flow_accept
decode_flow_accept-encode_flow_accept m v =
    let (w, e, q) = push_all-new (m.flow_id.value ∷ []) (v, tt) (omega arith) in
    let (r1, e1, a1) =
      read_flow_id-At (new_reader (body_slice w)) m.flow_id _ v (from_slice (body_slice w) q) in
    let e2 = finish-At r1 a1 in (w, e, ground (arith, e1, e2))

pub decode_flow_accept-ok :
    (input : List ℕ) (m : FlowAccept)
    → All IsByte input
    → decode_flow_accept input ≡ ok m
    → IsFlowId m.flow_id × (input ≡ wire_forms (m.flow_id.value ∷ []))
unfolding decode_flow_accept
decode_flow_accept-ok input m bytes h =
    bind_ok (read_flow_id (new_reader input)) _ h λ (id, r1) e1 k1.
      bind_ok (finish r1) _ k1 λ u e2 k2.
        read_flow_id-ok (new_reader input) input id r1 (new_reader-At input) bytes e1
          λ id_ok rest1 q1 a1 b1.
            subst
              (λ (x : FlowAccept). IsFlowId x.flow_id × (input ≡ wire_forms (x.flow_id.value ∷ [])))
              (ok-injective k2)
              (id_ok, q1 ∙ ap (◌++◌ (wire_form id.value)) (finish-ok r1 rest1 a1 e2))

pub reject_small : (reason : FlowRejectReason) → IsVarInt (encode_reject_reason reason)
reject_small resource_limit = omega arith
reject_small message_limit = omega arith

decode_reject_reason-encode :
    (reason : FlowRejectReason) → decode_reject_reason (encode_reject_reason reason) ≡ ok reason
unfolding decode_reject_reason
decode_reject_reason-encode resource_limit = refl
decode_reject_reason-encode message_limit = refl

encode_reject_reason-decode :
    (v : ℕ) (reason : FlowRejectReason)
    → decode_reject_reason v ≡ ok reason
    → encode_reject_reason reason ≡ v
unfolding decode_reject_reason
encode_reject_reason-decode v reason h = ground arith

-- A `FlowReject` whose flow identity fits a wire integer is encoded without a panic, and decoding
-- the encoded body returns it with its reason.
pub decode_flow_reject-encode_flow_reject :
    (m : FlowReject)
    → IsFlowId m.flow_id
    → (w : BodyWriter) × (encode_flow_reject m ≡ some w)
      × (decode_flow_reject (body_slice w) ≡ ok m)
unfolding encode_flow_reject decode_flow_reject
decode_flow_reject-encode_flow_reject m v =
    let (w, e, q) =
      push_all-new (m.flow_id.value ∷ encode_reject_reason m.reason ∷ [])
        (v, (reject_small m.reason, tt)) (omega arith) in
    let (r1, e1, a1) =
      read_flow_id-At (new_reader (body_slice w)) m.flow_id _ v (from_slice (body_slice w) q) in
    let (r2, e2, a2) =
      read_varint-At r1 (encode_reject_reason m.reason) _ (reject_small m.reason) a1 in
    let e3 = decode_reject_reason-encode m.reason in
    let e4 = finish-At r2 a2 in (w, e, ground (arith, e1, e2, e3, e4))

pub decode_flow_reject-ok :
    (input : List ℕ) (m : FlowReject)
    → All IsByte input
    → decode_flow_reject input ≡ ok m
    → IsFlowId m.flow_id
      × (input ≡ wire_forms (m.flow_id.value ∷ encode_reject_reason m.reason ∷ []))
unfolding decode_flow_reject
decode_flow_reject-ok input m bytes h =
    bind_ok (read_flow_id (new_reader input)) _ h λ (id, r1) e1 k1.
      bind_ok (read_varint r1) _ k1 λ (code, r2) e2 k2.
        bind_ok (decode_reject_reason code) _ k2 λ reason e3 k3. bind_ok (finish r2) _ k3 λ u e4 k4.
          read_flow_id-ok (new_reader input) input id r1 (new_reader-At input) bytes e1
            λ id_ok rest1 q1 a1 b1.
              let (code_ok, (rest2, q2, a2, b2)) = read_varint-ok r1 rest1 code r2 a1 b1 e2 in
              subst
                (λ (x : FlowReject).
                  IsFlowId x.flow_id
                  × (input ≡ wire_forms (x.flow_id.value ∷ encode_reject_reason x.reason ∷ [])))
                (ok-injective k4)
                (
                  id_ok,
                  q1
                      ∙ ap (◌++◌ (wire_form id.value)) (
                          q2
                          ∙ ap₂ ◌++◌
                              (ap wire_form (sym (encode_reject_reason-decode code reason e3)))
                              (finish-ok r2 rest2 a2 e4)),
                )

pub terminate_small : (reason : FlowTerminateReason) → IsVarInt (encode_terminate_reason reason)
terminate_small normal = omega arith
terminate_small resource_failure = omega arith
terminate_small protocol_failure = omega arith
terminate_small reliable_delivery_failure = omega arith

decode_terminate_reason-encode :
    (reason : FlowTerminateReason)
    → decode_terminate_reason (encode_terminate_reason reason) ≡ ok reason
unfolding decode_terminate_reason
decode_terminate_reason-encode normal = refl
decode_terminate_reason-encode resource_failure = refl
decode_terminate_reason-encode protocol_failure = refl
decode_terminate_reason-encode reliable_delivery_failure = refl

encode_terminate_reason-decode :
    (v : ℕ) (reason : FlowTerminateReason)
    → decode_terminate_reason v ≡ ok reason
    → encode_terminate_reason reason ≡ v
unfolding decode_terminate_reason
encode_terminate_reason-decode v reason h = ground arith

-- A `FlowTerminate` whose flow identity fits a wire integer is encoded without a panic, and decoding
-- the encoded body returns it with its reason.
pub decode_flow_terminate-encode_flow_terminate :
    (m : FlowTerminate)
    → IsFlowId m.flow_id
    → (w : BodyWriter) × (encode_flow_terminate m ≡ some w)
      × (decode_flow_terminate (body_slice w) ≡ ok m)
unfolding encode_flow_terminate decode_flow_terminate
decode_flow_terminate-encode_flow_terminate m v =
    let (w, e, q) =
      push_all-new (m.flow_id.value ∷ encode_terminate_reason m.reason ∷ [])
        (v, (terminate_small m.reason, tt)) (omega arith) in
    let (r1, e1, a1) =
      read_flow_id-At (new_reader (body_slice w)) m.flow_id _ v (from_slice (body_slice w) q) in
    let (r2, e2, a2) =
      read_varint-At r1 (encode_terminate_reason m.reason) _ (terminate_small m.reason) a1 in
    let e3 = decode_terminate_reason-encode m.reason in
    let e4 = finish-At r2 a2 in (w, e, ground (arith, e1, e2, e3, e4))

pub decode_flow_terminate-ok :
    (input : List ℕ) (m : FlowTerminate)
    → All IsByte input
    → decode_flow_terminate input ≡ ok m
    → IsFlowId m.flow_id
      × (input ≡ wire_forms (m.flow_id.value ∷ encode_terminate_reason m.reason ∷ []))
unfolding decode_flow_terminate
decode_flow_terminate-ok input m bytes h =
    bind_ok (read_flow_id (new_reader input)) _ h λ (id, r1) e1 k1.
      bind_ok (read_varint r1) _ k1 λ (code, r2) e2 k2.
        bind_ok (decode_terminate_reason code) _ k2 λ reason e3 k3.
          bind_ok (finish r2) _ k3 λ u e4 k4.
            read_flow_id-ok (new_reader input) input id r1 (new_reader-At input) bytes e1
              λ id_ok rest1 q1 a1 b1.
                let (code_ok, (rest2, q2, a2, b2)) = read_varint-ok r1 rest1 code r2 a1 b1 e2 in
                subst
                  (λ (x : FlowTerminate).
                    IsFlowId x.flow_id
                    × (input
                        ≡ wire_forms (x.flow_id.value ∷ encode_terminate_reason x.reason ∷ [])))
                  (ok-injective k4)
                  (
                    id_ok,
                    q1
                        ∙ ap (◌++◌ (wire_form id.value)) (
                            q2
                            ∙ ap₂ ◌++◌
                                (ap wire_form (sym (encode_terminate_reason-decode code reason e3)))
                                (finish-ok r2 rest2 a2 e4)),
                  )
