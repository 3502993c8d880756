-- ===== src/Wire/VarInt.antt =====
-- wire.rs: the QUIC variable-length integers. A byte slice is a list of numbers below 256.
pub mod Big
pub mod Encode
pub mod RoundTrip
pub mod Canonical
use runen_net.Prelude.{
  ℕ, zero, suc, ◌+◌, ◌-◌, ◌*◌, ◌/◌, ◌%◌, ◌^◌, ◌<◌, bit_and, bit_or, Option, none, some, List, [],
  ◌∷◌, ◌++◌, if◌then◌else◌, ltb, leb, ◌==◌, nat_eq, length, take, drop, Result, ok, err,
}

abbrev pub max_varint : ℕ
max_varint = 2 ^ 62 - 1

pub data VarIntEncodeError : Type 0 where
  out_of_range : VarIntEncodeError

pub data VarIntDecodeError : Type 0 where
  incomplete : (needed available : ℕ) → VarIntDecodeError
  non_minimal : VarIntDecodeError

-- `bytes` is the array of eight.
pub record EncodedVarInt : Type 0 where
  pub bytes : List ℕ
  pub len : ℕ

abbrev pub as_slice : EncodedVarInt → List ℕ
as_slice e = take e.len e.bytes

unfoldable pub varint_len : ℕ → Option ℕ
varint_len value =
    if ltb value (2 ^ 6)
    then some 1
    else if ltb value (2 ^ 14)
    then some 2
    else if ltb value (2 ^ 30)
    then some 4
    else if leb value max_varint
    then some 8
    else none

-- `x.to_be_bytes()` on a word of `n` bytes.
abbrev pub to_be_bytes : ℕ → ℕ → List ℕ
to_be_bytes zero x = []
to_be_bytes (suc n) x = (x / 256 ^ n % 256) ∷ to_be_bytes n x

abbrev pub zeros : ℕ → List ℕ
zeros zero = []
zeros (suc n) = 0 ∷ zeros n

-- The array that `encode_varint` fills, by the length that `varint_len` found.
unfoldable pub fill_bytes : ℕ → ℕ → List ℕ
fill_bytes len value =
    if len == 1
    then (value % 2 ^ 8) ∷ zeros 7
    else if len == 2
    then to_be_bytes 2 (bit_or (value % 2 ^ 16) 0x4000) ++ zeros 6
    else if len == 4
    then to_be_bytes 4 (bit_or (value % 2 ^ 32) 0x8000_0000) ++ zeros 4
    else to_be_bytes 8 (bit_or value 0xc000_0000_0000_0000)

unfoldable pub encode_varint : ℕ → Result EncodedVarInt VarIntEncodeError
unfolding varint_len fill_bytes
encode_varint value = elim (varint_len value) [
  | none ↦ err out_of_range
  | some len ↦ ok (record { bytes = fill_bytes len value; len = len })
]

abbrev pub encoded_len_from_first : ℕ → ℕ
encoded_len_from_first first = 2 ^ (first / 2 ^ 6)

-- The loop over `input[1..len]`.
unfoldable pub read_bytes : ℕ → List ℕ → ℕ
read_bytes value [] = value
read_bytes value (byte ∷ rest) = read_bytes (bit_or (value * 2 ^ 8 % 2 ^ 64) byte) rest

unfoldable pub decode_varint : List ℕ → Result (ℕ × ℕ) VarIntDecodeError
unfolding varint_len read_bytes
decode_varint [] = err (incomplete 1 0)
decode_varint (first ∷ input) =
    let len = encoded_len_from_first first in
    let value = read_bytes (bit_and first 0x3f) (take (len - 1) input) in
    if ltb (suc (length input)) len
    then err (incomplete len (suc (length input)))
    else elim (varint_len value) [
      | none ↦ err non_minimal
      | some n ↦ if n == len then ok (value, len) else err non_minimal
    ]
