-- ===== src/Wire/VarInt/Big.antt =====
-- Big-endian bytes against the number that they stand for.
use mathlib.Core.Path.{ap₂}
use native.Mathlib.Nat.{
  pow-suc, one-le-pow, add-mul-mod_self_right, mod-eq_of_lt, div-add-mod', mod-lt,
}
use runen_net.Prelude.{
  ℕ, zero, suc, ◌+◌, ◌*◌, ◌/◌, ◌%◌, ◌^◌, ◌≤◌, ◌<◌, ◌≡◌, refl, ap, ◌∙◌, List, [], ◌∷◌, length, All,
  arith, bit_or,
}
use runen_net.Prelude.Bits.{bit_or_low}
use runen_net.Wire.VarInt.{to_be_bytes, read_bytes}

abbrev pub IsByte : ℕ → Type 0
IsByte b = b < 256

-- The loop of `decode_varint` in plain arithmetic.
abbrev pub big_endian : ℕ → List ℕ → ℕ
big_endian acc [] = acc
big_endian acc (b ∷ bs) = big_endian (acc * 256 + b) bs

pub length-to_be_bytes : (n x : ℕ) → length (to_be_bytes n x) ≡ n
length-to_be_bytes zero x = refl
length-to_be_bytes (suc n) x = ap suc (length-to_be_bytes n x)

pub to_be_bytes-IsByte : (n x : ℕ) → All IsByte (to_be_bytes n x)
to_be_bytes-IsByte zero x = tt
to_be_bytes-IsByte (suc n) x = (omega arith, to_be_bytes-IsByte n x)

power_pos : (n : ℕ) → 0 < 256 ^ n
power_pos n = one-le-pow n 256 (omega arith)

-- One more base-256 digit of `x`.
mod_digit : (x p : ℕ) → 0 < p → x % (p * 256) ≡ x / p % 256 * p + x % p
mod_digit x p h =
    ap (λ (y : ℕ). y % (p * 256)) whole
    ∙ add-mul-mod_self_right (x / p % 256 * p + x % p) (x / p / 256) (p * 256)
    ∙ mod-eq_of_lt small
  where
    whole : x ≡ x / p % 256 * p + x % p + x / p / 256 * (p * 256)
    whole = omega (arith, div-add-mod' x p, ap (λ (y : ℕ). y * p) (div-add-mod' (x / p) 256))

    digit : x / p % 256 * p ≤ 255 * p
    digit = grind arith

    small : x / p % 256 * p + x % p < p * 256
    small = omega (arith, digit, mod-lt x h)

pub big_endian-to_be_bytes :
    (n acc x : ℕ) → big_endian acc (to_be_bytes n x) ≡ acc * 256 ^ n + x % 256 ^ n
big_endian-to_be_bytes zero acc x = omega arith
big_endian-to_be_bytes (suc n) acc x = omega (
  arith,
  big_endian-to_be_bytes n (acc * 256 + x / 256 ^ n % 256) x,
  mod_digit x (256 ^ n) (power_pos n),
  pow-suc 256 n,
  ap (λ (t : ℕ). acc * t) (pow-suc 256 n),
  ap (λ (t : ℕ). x % t) (pow-suc 256 n),
)

pub big_endian_bounds :
    (acc : ℕ) (bs : List ℕ)
    → All IsByte bs
    → (acc * 256 ^ length bs ≤ big_endian acc bs)
      × (big_endian acc bs < acc * 256 ^ length bs + 256 ^ length bs)
big_endian_bounds acc [] h = (omega arith, omega arith)
big_endian_bounds acc (b ∷ bs) h =
    let (lo, hi) = big_endian_bounds (acc * 256 + b) bs h.1 in
    let e : acc * 256 ^ suc (length bs) ≡ acc * 256 * 256 ^ length bs =
      omega (arith, ap (λ (t : ℕ). acc * t) (pow-suc 256 (length bs))) in
    let low : b * 256 ^ length bs ≤ 255 * 256 ^ length bs = grind arith in
    (omega (arith, lo, e), omega (arith, hi, e, low, pow-suc 256 (length bs)))

quotient : (q p x : ℕ) → (q * p ≤ x) × (x < q * p + p) → x / p ≡ q
quotient q p x (lo, hi) = grind (arith, div-add-mod' x p)

-- Reading bytes and writing the number back gives the bytes.
pub to_be_bytes-big_endian :
    (acc : ℕ) (bs : List ℕ) → All IsByte bs → to_be_bytes (length bs) (big_endian acc bs) ≡ bs
to_be_bytes-big_endian acc [] h = refl
to_be_bytes-big_endian acc (b ∷ bs) h = ap₂ ◌∷◌ head (to_be_bytes-big_endian (acc * 256 + b) bs h.1)
  where
    p : ℕ
    p = 256 ^ length bs

    top : big_endian (acc * 256 + b) bs / p ≡ acc * 256 + b
    top =
        quotient (acc * 256 + b) p (big_endian (acc * 256 + b) bs)
          (big_endian_bounds (acc * 256 + b) bs h.1)

    head : big_endian (acc * 256 + b) bs / 256 ^ length bs % 256 ≡ b
    head = omega (arith, ap (λ (t : ℕ). t % 256) top, h.0)

-- The loop as the source writes it, while nothing is shifted out of the word.
pub read_bytes-big_endian :
    (acc : ℕ) (bs : List ℕ)
    → All IsByte bs
    → acc * 256 ^ length bs + 256 ^ length bs ≤ 2 ^ 64
    → read_bytes acc bs ≡ big_endian acc bs
unfolding read_bytes
read_bytes-big_endian acc [] h fits = refl
read_bytes-big_endian acc (b ∷ bs) h fits =
    rw (joined) (read_bytes-big_endian (acc * 256 + b) bs h.1 rest_fits)
  where
    e : acc * 256 ^ suc (length bs) ≡ acc * 256 * 256 ^ length bs
    e = omega (arith, ap (λ (t : ℕ). acc * t) (pow-suc 256 (length bs)))

    low : b * 256 ^ length bs ≤ 255 * 256 ^ length bs
    low = grind (arith, h.0)

    rest_fits : (acc * 256 + b) * 256 ^ length bs + 256 ^ length bs ≤ 2 ^ 64
    rest_fits = omega (arith, e, low, pow-suc 256 (length bs), fits)

    small : acc * 256 < 2 ^ 64
    small = grind (arith, e, power_pos (length bs), fits, pow-suc 256 (length bs))

    joined : bit_or (acc * 2 ^ 8 % 2 ^ 64) b ≡ acc * 256 + b
    joined = rw (mod-eq_of_lt {n = acc * 256} {m = 2 ^ 64} small) (bit_or_low 8 acc b h.0)
