-- ===== src/Wire/VarInt/Canonical.antt =====
-- wire.rs: what is encoded of an integer that was decoded.
use native.Mathlib.Nat.{pow-suc}
use runen_net.Prelude.{
  ℕ, suc, ◌+◌, ◌-◌, ◌*◌, ◌/◌, ◌%◌, ◌^◌, ◌≤◌, ◌<◌, ◌≡◌, refl, sym, ap, ◌∙◌, bit_and, none, some,
  List, [], ◌∷◌, nat_eq, length, take, All, ok, arith, inl, inr, ◌⊎◌, length-take_of_le, All-take,
  Option-cases,
}
use runen_net.Prelude.Bits.{six_bits}
use runen_net.Wire.VarInt.{
  max_varint, EncodedVarInt, as_slice, varint_len, to_be_bytes, encode_varint,
  encoded_len_from_first, read_bytes, decode_varint,
}
use runen_net.Wire.VarInt.Big.{IsByte, big_endian, to_be_bytes-big_endian, read_bytes-big_endian}
use runen_net.Wire.VarInt.Encode.{tag, varint_len_bound, encode_varint-bytes}
use runen_net.Wire.VarInt.RoundTrip.{code_cases, power_seven}

-- What a successful decoding has checked.
decode_varint-ok :
    (first : ℕ) (input : List ℕ) (v k : ℕ)
    → decode_varint (first ∷ input) ≡ ok (v, k)
    → (k ≡ encoded_len_from_first first)
      × (k ≤ suc (length input))
      × (v ≡ read_bytes (bit_and first 0x3f) (take (k - 1) input))
      × (varint_len v ≡ some k)
unfolding decode_varint
decode_varint-ok first input v k h = by_length (Option-cases (varint_len value))
  where
    len : ℕ
    len = encoded_len_from_first first

    value : ℕ
    value = read_bytes (bit_and first 0x3f) (take (len - 1) input)

    by_length :
        (varint_len value ≡ none) ⊎ ((n : ℕ) × (varint_len value ≡ some n))
        → (k ≡ len)
          × (k ≤ suc (length input))
          × (v ≡ read_bytes (bit_and first 0x3f) (take (k - 1) input))
          × (varint_len v ≡ some k)
    by_length (inl e) = absurd (ground arith)
    by_length (inr (n, e)) =
        let q : k ≡ len = ground arith in
        let w : v ≡ value = ground arith in
        (
          q,
          ground arith,
          w ∙ ap (λ (x : ℕ). read_bytes (bit_and first 0x3f) (take (x - 1) input)) (sym q),
          ap varint_len w ∙ ground arith,
        )

big_endian-add :
    (a c : ℕ) (bs : List ℕ) → big_endian (a + c) bs ≡ big_endian a bs + c * 256 ^ length bs
big_endian-add a c [] = omega arith
big_endian-add a c (b ∷ bs) =
    ap (λ (x : ℕ). big_endian x bs) (carry a b c)
    ∙ big_endian-add (a * 256 + b) (c * 256) bs
    ∙ omega (arith, ap (λ (x : ℕ). c * x) (pow-suc 256 (length bs)))
  where
    carry : (a b c : ℕ) → (a + c) * 256 + b ≡ a * 256 + b + c * 256
    carry a b c = omega arith

-- The value under its length code is the number that all the bytes stand for.
tagged :
    (first t : ℕ) (input : List ℕ) (n v : ℕ)
    → (first < 256) × All IsByte input
    → t ≡ first / 64
    → n ≤ 7
    → length (take n input) ≡ n
    → v ≡ read_bytes (bit_and first 0x3f) (take n input)
    → v + t * (64 * 256 ^ n) ≡ big_endian 0 (first ∷ take n input)
tagged first t input n v h ht seven hl hv =
    ap (λ (x : ℕ). x + t * (64 * 256 ^ n))
      (hv
        ∙ ap (λ (x : ℕ). read_bytes x bs) (six_bits first h.0)
        ∙ read_bytes-big_endian (first % 64) bs (All-take IsByte n input h.1) fits)
    ∙ ap (λ (x : ℕ). big_endian (first % 64) bs + x)
        (omega (arith, ap (λ (x : ℕ). t * (64 * 256 ^ x)) hl))
    ∙ sym (big_endian-add (first % 64) (t * 64) bs)
    ∙ ap (λ (x : ℕ). big_endian x bs) (omega (arith, ht))
  where
    bs : List ℕ
    bs = take n input

    fits : first % 64 * 256 ^ length bs + 256 ^ length bs ≤ 2 ^ 64
    fits = rw hl (room (256 ^ n) (power_seven n seven))
      where
        room : (p : ℕ) → p ≤ 2 ^ 56 → first % 64 * p + p ≤ 2 ^ 64
        room p small = grind arith

-- Every successful decoding of bytes used up exactly the bytes that `encode_varint` writes for the
-- value that it returned: there is one encoding of each integer.
pub encode_varint-decode_varint :
    (input : List ℕ) (v k : ℕ)
    → All IsByte input
    → decode_varint input ≡ ok (v, k)
    → (v ≤ max_varint)
      × (k ≤ length input)
      × ((e : EncodedVarInt) × (encode_varint v ≡ ok e) × (as_slice e ≡ take k input))
encode_varint-decode_varint [] v k h e = absurd (unfold decode_varint in ground arith)
encode_varint-decode_varint (first ∷ input) v k h d =
    let t : ℕ = first / 2 ^ 6 in
    let four : t < 4 = omega (arith, h.0) in
    let (len, room, value, minimal) = decode_varint-ok first input v k d in
    let (split, seven) = code_cases t four in
    let n : ℕ = 2 ^ t - 1 in
    let k_suc : k ≡ suc n = len ∙ split in
    let bs : List ℕ = take n input in
    let length_bs : length bs ≡ n = length-take_of_le n input (omega (arith, room, k_suc)) in
    let hm : varint_len v ≡ some (2 ^ t) = minimal ∙ ap some len in
    let (e, ok_e, _, _, slice) = encode_varint-bytes t v four hm in
    let whole : v + tag t ≡ big_endian 0 (first ∷ bs) =
      tagged first t input n v (h.0, h.1) refl seven length_bs
        (value
          ∙ ap (λ (x : ℕ). read_bytes (bit_and first 0x3f) (take (x - 1) input)) k_suc
          ∙ ap (λ (x : ℕ). read_bytes (bit_and first 0x3f) (take x input)) (omega arith)) in
    (
      (varint_len_bound t v four hm).0,
      room,
      (
        e,
        ok_e,
        slice
            ∙ ap (λ (x : ℕ). to_be_bytes (2 ^ t) x) whole
            ∙ ap (λ (x : ℕ). to_be_bytes x (big_endian 0 (first ∷ bs)))
                (split ∙ ap suc (sym length_bs))
            ∙ to_be_bytes-big_endian 0 (first ∷ bs) (h.0, All-take IsByte n input h.1)
            ∙ ap (λ (x : ℕ). take x (first ∷ input)) (sym k_suc),
      ),
    )
