-- ===== src/Wire/VarInt/RoundTrip.antt =====
-- wire.rs: what is decoded of an integer that was encoded.
use mathlib.Core.Path.{ap₂}
use native.Mathlib.Nat.{add-mul-div_right, add-mul-mod_self_right, one-le-pow, div-add-mod'}
use runen_net.Prelude.{
  ℕ, zero, suc, ◌+◌, ◌-◌, ◌*◌, ◌/◌, ◌%◌, ◌^◌, ◌≤◌, ◌<◌, ◌≡◌, sym, ap, ◌∙◌, bit_and, some, List, ◌∷◌,
  ◌++◌, nat_eq, length, take, ok, arith, take-append, length-append,
}
use runen_net.Prelude.Bits.{six_bits}
use runen_net.Wire.VarInt.{
  max_varint, EncodedVarInt, as_slice, varint_len, to_be_bytes, encode_varint,
  encoded_len_from_first, read_bytes, decode_varint,
}
use runen_net.Wire.VarInt.Big.{
  length-to_be_bytes, to_be_bytes-IsByte, big_endian-to_be_bytes, read_bytes-big_endian,
}
use runen_net.Wire.VarInt.Encode.{tag, varint_len-code, varint_len_bound, encode_varint-bytes}

-- A whole, minimal encoding is accepted.
decode_varint-parts :
    (first : ℕ) (input : List ℕ) (n v : ℕ)
    → encoded_len_from_first first ≡ suc n
    → n ≤ length input
    → read_bytes (bit_and first 0x3f) (take n input) ≡ v
    → varint_len v ≡ some (suc n)
    → decode_varint (first ∷ input) ≡ ok (v, suc n)
unfolding decode_varint
decode_varint-parts first input n v hl fits hv hm =
    let m : suc n - 1 ≡ n = omega arith in rw (hl, m, hv, hm, decode_varint) (ground arith)

pub power_seven : (n : ℕ) → n ≤ 7 → 256 ^ n ≤ 2 ^ 56
power_seven zero h = omega arith
power_seven (suc zero) h = omega arith
power_seven (suc (suc zero)) h = omega arith
power_seven (suc (suc (suc zero))) h = omega arith
power_seven (suc (suc (suc (suc zero)))) h = omega arith
power_seven (suc (suc (suc (suc (suc zero))))) h = omega arith
power_seven (suc (suc (suc (suc (suc (suc zero)))))) h = omega arith
power_seven (suc (suc (suc (suc (suc (suc (suc zero))))))) h = omega arith
power_seven (suc (suc (suc (suc (suc (suc (suc (suc n)))))))) h = absurd (omega arith)

regroup : (t p : ℕ) → t * (64 * p) ≡ t * 64 * p
regroup t p = omega arith

below_64 : (p v : ℕ) → v < 64 * p → v / p < 64
below_64 p v h = grind (arith, div-add-mod' v p)

-- The tail of a value's encoding, read on from its top bits.
read_tail :
    (n t v : ℕ)
    → v < 64 * 256 ^ n
    → n ≤ 7
    → read_bytes (v / 256 ^ n) (to_be_bytes n (v + t * (64 * 256 ^ n))) ≡ v
read_tail n t v h seven =
    read_bytes-big_endian _ _ (to_be_bytes-IsByte n _) fits
    ∙ big_endian-to_be_bytes n (v / 256 ^ n) (v + t * (64 * 256 ^ n))
    ∙ whole
  where
    p : ℕ
    p = 256 ^ n

    fits :
        v / 256 ^ n * 256 ^ length (to_be_bytes n (v + t * (64 * 256 ^ n)))
          + 256 ^ length (to_be_bytes n (v + t * (64 * 256 ^ n)))
        ≤ 2 ^ 64
    fits =
        rw (length-to_be_bytes n (v + t * (64 * 256 ^ n)))
          (omega (arith, div-add-mod' v p, power_seven n seven))

    whole : v / 256 ^ n * 256 ^ n + (v + t * (64 * 256 ^ n)) % 256 ^ n ≡ v
    whole = omega (
      arith,
      add-mul-mod_self_right v (t * 64) p,
      div-add-mod' v p,
      ap (λ (x : ℕ). (v + x) % p) (regroup t p),
    )

-- The first byte of an encoding carries the length code and the value's top bits.
first_byte :
    (n t v : ℕ)
    → v < 64 * 256 ^ n
    → t < 4
    → (v + t * (64 * 256 ^ n)) / 256 ^ n % 256 ≡ t * 64 + v / 256 ^ n
first_byte n t v h four = omega (arith, top, div-add-mod' v (256 ^ n), small)
  where
    top : (v + t * (64 * 256 ^ n)) / 256 ^ n ≡ v / 256 ^ n + t * 64
    top =
        ap (λ (x : ℕ). (v + x) / 256 ^ n) (regroup t (256 ^ n))
        ∙ add-mul-div_right v (t * 64) (one-le-pow n 256 (omega arith))

    small : v / 256 ^ n < 64
    small = below_64 (256 ^ n) v h

pub code_cases : (t : ℕ) → t < 4 → (2 ^ t ≡ suc (2 ^ t - 1)) × (2 ^ t - 1 ≤ 7)
code_cases zero h = (omega arith, omega arith)
code_cases (suc zero) h = (omega arith, omega arith)
code_cases (suc (suc zero)) h = (omega arith, omega arith)
code_cases (suc (suc (suc zero))) h = (omega arith, omega arith)
code_cases (suc (suc (suc (suc t)))) h = absurd (omega arith)

decode_varint-bytes :
    (n t v : ℕ) (rest : List ℕ)
    → t < 4
    → 2 ^ t ≡ suc n
    → n ≤ 7
    → v < 64 * 256 ^ n
    → varint_len v ≡ some (suc n)
    → decode_varint (to_be_bytes (suc n) (v + t * (64 * 256 ^ n)) ++ rest) ≡ ok (v, suc n)
decode_varint-bytes n t v rest four hl seven h hm =
    decode_varint-parts _ (to_be_bytes n x ++ rest) n v code room value hm
  where
    x : ℕ
    x = v + t * (64 * 256 ^ n)

    first : x / 256 ^ n % 256 ≡ t * 64 + v / 256 ^ n
    first = first_byte n t v h four

    small : v / 256 ^ n < 64
    small = below_64 (256 ^ n) v h

    code : encoded_len_from_first (x / 256 ^ n % 256) ≡ suc n
    code = ap (λ (y : ℕ). 2 ^ y) (omega (arith, first, small)) ∙ hl

    room : n ≤ length (to_be_bytes n x ++ rest)
    room = omega (arith, length-append (to_be_bytes n x) rest, length-to_be_bytes n x)

    value : read_bytes (bit_and (x / 256 ^ n % 256) 0x3f) (take n (to_be_bytes n x ++ rest)) ≡ v
    value =
        ap₂ read_bytes (six_bits _ (omega arith) ∙ omega (arith, first, small))
          (take-append n (to_be_bytes n x) rest (length-to_be_bytes n x))
        ∙ read_tail n t v h seven

-- Every integer up to 2^62 - 1 has an encoding, of 1, 2, 4 or 8 bytes (a power of 2 below 2^4), and
-- `decode_varint` reads the integer and that length back from it, whatever follows.
pub decode_varint-encode_varint :
    (v : ℕ) (rest : List ℕ)
    → v ≤ max_varint
    → (e : EncodedVarInt) × (encode_varint v ≡ ok e)
      × (decode_varint (as_slice e ++ rest) ≡ ok (v, e.len))
      × (length (as_slice e) ≡ e.len)
      × ((t : ℕ) × (t < 4) × (e.len ≡ 2 ^ t))
decode_varint-encode_varint v rest h =
    let (t, four, hm) = varint_len-code v h in
    let (e, ok_e, len_e, _, bytes_e) = encode_varint-bytes t v four hm in
    let (split, seven) = code_cases t four in
    let n : ℕ = 2 ^ t - 1 in
    let slice : as_slice e ≡ to_be_bytes (suc n) (v + tag t) =
      bytes_e ∙ ap (λ (k : ℕ). to_be_bytes k (v + tag t)) split in
    (
      e,
      ok_e,
      ap (λ (s : List ℕ). decode_varint (s ++ rest)) slice
          ∙ decode_varint-bytes n t v rest four split seven (varint_len_bound t v four hm).1
              (hm ∙ ap some split)
          ∙ ap (λ (k : ℕ). ok (v, k)) (sym split ∙ sym len_e),
      ap length slice ∙ length-to_be_bytes (suc n) (v + tag t) ∙ sym split ∙ sym len_e,
      (t, four, len_e),
    )
