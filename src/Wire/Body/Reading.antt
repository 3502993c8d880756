-- ===== src/Wire/Body/Reading.antt =====
-- wire.rs: one varint after another, read.
use runen_net.Prelude.{
  ℕ, zero, suc, ◌+◌, ◌≤◌, ◌≡◌, refl, sym, ap, ◌∙◌, List, [], ◌∷◌, ◌++◌, nat_eq, length, take, drop,
  All, Result, ok, err, arith, length-append, drop-append, take-append-drop, length-take_of_le,
  All-drop,
}
use runen_net.Wire.VarInt.{VarIntDecodeError, decode_varint}
use runen_net.Wire.VarInt.Big.{IsByte}
use runen_net.Wire.VarInt.Canonical.{encode_varint-decode_varint}
use runen_net.Wire.Body.{BodyReader, new_reader, read_varint, finish}
use runen_net.Wire.Body.Fields.{wire_form, IsVarInt, decode_varint-wire_form, wire_form-encode}

-- The reader stands in front of `rest`.
pub record At (r : BodyReader) (rest : List ℕ) : Type 0 where
  pub unread : drop r.offset r.input ≡ rest
  pub inside : r.offset + length rest ≡ length r.input

pub new_reader-At : (input : List ℕ) → At (new_reader input) input
new_reader-At input = record { unread = refl; inside = omega arith }

drop-drop : (a b : ℕ) (xs : List ℕ) → drop (a + b) xs ≡ drop b (drop a xs)
drop-drop zero b xs = let e : 0 + b ≡ b = omega arith in rw e
drop-drop (suc a) b [] = let e : suc a + b ≡ suc (a + b) = omega arith in rw e (nothing b)
  where
    nothing : (b : ℕ) → [] ≡ drop {A = ℕ} b []
    nothing zero = refl
    nothing (suc b) = refl
drop-drop (suc a) b (x ∷ xs) =
    let e : suc a + b ≡ suc (a + b) = omega arith in rw e (drop-drop a b xs)

abbrev moved : BodyReader → ℕ → BodyReader
moved r k = record r { offset = r.offset + k }

moved-At :
    (r : BodyReader) (front rest : List ℕ) → At r (front ++ rest) → At (moved r (length front)) rest
moved-At r front rest h = record {
  unread =
      drop-drop r.offset (length front) r.input
      ∙ ap (drop (length front)) h.unread
      ∙ drop-append front rest;
  inside = omega (arith, h.inside, length-append front rest);
}

pub read_varint-At :
    (r : BodyReader) (v : ℕ) (rest : List ℕ)
    → IsVarInt v
    → At r (wire_form v ++ rest)
    → (next : BodyReader) × (read_varint r ≡ ok (v, next)) × At next rest
unfolding read_varint
read_varint-At r v rest hv h = (
  moved r (length (wire_form v)),
  rw (ap decode_varint h.unread ∙ decode_varint-wire_form v rest hv, read_varint) refl,
  moved-At r (wire_form v) rest h,
)

pub finish-At : (r : BodyReader) → At r [] → finish r ≡ ok tt
unfolding finish
finish-At r h = ground (arith, h.inside)

pub finish-ok : (r : BodyReader) (rest : List ℕ) → At r rest → finish r ≡ ok tt → rest ≡ []
unfolding finish
finish-ok r [] h e = refl
finish-ok r (x ∷ xs) h e = absurd (ground (arith, h.inside))

drop-take :
    (k : ℕ) (xs : List ℕ) → k ≤ length xs → (r : BodyReader) → At r xs → At (moved r k) (drop k xs)
drop-take k xs h r a = moved-drop (length-take_of_le k xs h)
  where
    moved-drop : length (take k xs) ≡ k → At (moved r k) (drop k xs)
    moved-drop e = rw e at (
        moved-At r (take k xs) (drop k xs) (record {
          unread = a.unread ∙ sym (take-append-drop k xs);
          inside = omega (arith, a.inside, ap length (take-append-drop k xs));
        }))

-- What a successful read took off the input.
pub read_varint-ok :
    (r : BodyReader) (rest : List ℕ) (v : ℕ) (next : BodyReader)
    → At r rest
    → All IsByte rest
    → read_varint r ≡ ok (v, next)
    → IsVarInt v × ((last : List ℕ) × (rest ≡ wire_form v ++ last) × At next last × All IsByte last)
unfolding read_varint
read_varint-ok r rest v next a bytes h = go (decode_varint rest) refl
  where
    taken :
        (w k : ℕ)
        → decode_varint rest ≡ ok (w, k)
        → (w ≡ v) × (next ≡ moved r k)
        → IsVarInt v
          × ((last : List ℕ) × (rest ≡ wire_form v ++ last) × At next last × All IsByte last)
    taken w k e (same, at) =
        let (small, room, (x, ok_x, slice)) = encode_varint-decode_varint rest w k bytes e in
        (
          rw same at small,
          (
            drop k rest,
            sym (take-append-drop k rest)
                ∙ ap (λ (s : List ℕ). s ++ drop k rest)
                    (sym slice ∙ sym (wire_form-encode w x ok_x) ∙ ap wire_form same),
            rw at (drop-take k rest room r a),
            All-drop IsByte k rest bytes,
          ),
        )

    go :
        (d : Result (ℕ × ℕ) VarIntDecodeError)
        → decode_varint rest ≡ d
        → IsVarInt v
          × ((last : List ℕ) × (rest ≡ wire_form v ++ last) × At next last × All IsByte last)
    go (ok (w, k)) e = taken w k e (ground (arith, h, e, a.unread), ground (arith, h, e, a.unread))
    go (err x) e = absurd (ground (arith, h, e, a.unread))
