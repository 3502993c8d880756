-- ===== src/Wire/VarInt/Encode.antt =====
-- wire.rs: what `encode_varint` writes, in plain arithmetic.
use mathlib.Core.Path.{ap₂}
use runen_net.Prelude.{
  ℕ, zero, suc, ◌+◌, ◌-◌, ◌*◌, ◌%◌, ◌^◌, ◌≤◌, ◌<◌, ◌≡◌, refl, ap, ◌∙◌, bit_or, some, ◌∷◌, ltb,
  nat_eq, length, ok, err, arith, inl, inr, Bool-cases,
}
use runen_net.Prelude.Bits.{bit_or_high}
use runen_net.Wire.VarInt.{
  max_varint, out_of_range, EncodedVarInt, as_slice, varint_len, to_be_bytes, fill_bytes,
  encode_varint,
}

-- The length code in the two top bits, at the weight that it has in the whole encoding.
abbrev pub tag : ℕ → ℕ
tag t = t * (64 * 256 ^ (2 ^ t - 1))

-- The length code of a value.
pub varint_len-code : (v : ℕ) → v ≤ max_varint → (t : ℕ) × (t < 4) × (varint_len v ≡ some (2 ^ t))
unfolding varint_len
varint_len-code v h = elim (Bool-cases (ltb v (2 ^ 6))) [
  | inl a ↦ (0, omega arith, ground arith)
  | inr a ↦ elim (Bool-cases (ltb v (2 ^ 14))) [
    | inl b ↦ (1, omega arith, ground arith)
    | inr b ↦ elim (Bool-cases (ltb v (2 ^ 30))) [
      | inl c ↦ (2, omega arith, ground arith)
      | inr c ↦ (3, omega arith, ground arith)
    ]
  ]
]

-- A value fits under its length code.
pub varint_len_bound :
    (t v : ℕ)
    → t < 4
    → varint_len v ≡ some (2 ^ t)
    → (v ≤ max_varint) × (v < 64 * 256 ^ (2 ^ t - 1))
unfolding varint_len
varint_len_bound zero v h e = (ground arith, ground arith)
varint_len_bound (suc zero) v h e = (ground arith, ground arith)
varint_len_bound (suc (suc zero)) v h e = (ground arith, ground arith)
varint_len_bound (suc (suc (suc zero))) v h e = (ground arith, ground arith)
varint_len_bound (suc (suc (suc (suc t)))) v h e = absurd (omega arith)

-- The encoding is the value with its length code on top, in big-endian order.
pub encode_varint-bytes :
    (t v : ℕ)
    → t < 4
    → varint_len v ≡ some (2 ^ t)
    → (e : EncodedVarInt) × (encode_varint v ≡ ok e)
      × (e.len ≡ 2 ^ t)
      × (length e.bytes ≡ 8)
      × (as_slice e ≡ to_be_bytes (2 ^ t) (v + tag t))
unfolding encode_varint
encode_varint-bytes zero v h e =
    let small = (varint_len_bound 0 v h e).1 in
    (
      record { bytes = fill_bytes 1 v; len = 1 },
      rw (e, encode_varint),
      refl,
      refl,
      ap₂ ◌∷◌ (omega arith) refl,
    )
encode_varint-bytes (suc zero) v h e =
    let small = (varint_len_bound 1 v h e).1 in
    let q : bit_or (v % 2 ^ 16) 0x4000 ≡ v + 16384 =
      bit_or_high 14 1 (v % 2 ^ 16) (omega arith) ∙ omega arith in
    (
      record { bytes = fill_bytes 2 v; len = 2 },
      rw (e, encode_varint),
      refl,
      refl,
      ap (to_be_bytes 2) q,
    )
encode_varint-bytes (suc (suc zero)) v h e =
    let small = (varint_len_bound 2 v h e).1 in
    let q : bit_or (v % 2 ^ 32) 0x8000_0000 ≡ v + 2147483648 =
      bit_or_high 30 2 (v % 2 ^ 32) (omega arith) ∙ omega arith in
    (
      record { bytes = fill_bytes 4 v; len = 4 },
      rw (e, encode_varint),
      refl,
      refl,
      ap (to_be_bytes 4) q,
    )
encode_varint-bytes (suc (suc (suc zero))) v h e =
    let small = (varint_len_bound 3 v h e).1 in
    let q : bit_or v 0xc000_0000_0000_0000 ≡ v + 13835058055282163712 =
      bit_or_high 62 3 v (omega arith) in
    (
      record { bytes = fill_bytes 8 v; len = 8 },
      rw (e, encode_varint),
      refl,
      refl,
      ap (to_be_bytes 8) q,
    )
encode_varint-bytes (suc (suc (suc (suc t)))) v h e = absurd (omega arith)

pub encode_varint_out_of_range : (v : ℕ) → max_varint < v → encode_varint v ≡ err out_of_range
unfolding encode_varint
encode_varint_out_of_range v h = ground arith
