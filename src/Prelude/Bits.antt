-- ===== src/Prelude/Bits.antt =====
-- `|` and `&` on words, as arithmetic: a field that fits under another one joins it by addition.
use Prim.Native.Nat.{
  ℕ, zero, suc, ◌+◌, ◌*◌, ◌/◌, ◌%◌, ◌^◌, ◌≤◌, ◌<◌, min, max, bit_and, bit_or, digits,
  bit_and-bitwise, bit_or-bitwise,
}
use mathlib.Core.Path.{◌≡◌, refl, ap}
use mathlib.Core.Bool.{Bool, true, false}
use native.Mathlib.Nat.{pow-suc}
use native.Mathlib.Omega.{arith}
use runen_net.Prelude.Tests.{nat_beq, nat_beq_iff, if◌then◌else◌}

abbrev or_digits : ℕ → ℕ → ℕ → ℕ
or_digits fuel a b = digits (λ x. x) max fuel a b

abbrev and_digits : ℕ → ℕ → ℕ → ℕ
and_digits fuel a b = digits (λ x. 0) min fuel a b

-- More fuel than the first word needs makes no difference.
or_digits_enough : (f g a b : ℕ) → a ≤ f → a ≤ g → or_digits f a b ≡ or_digits g a b
or_digits_enough zero zero a b p q = refl
or_digits_enough zero (suc g) zero b p q = refl
or_digits_enough zero (suc g) (suc a) b p q = absurd (omega arith)
or_digits_enough (suc f) zero zero b p q = refl
or_digits_enough (suc f) zero (suc a) b p q = absurd (omega arith)
or_digits_enough (suc f) (suc g) zero b p q = refl
or_digits_enough (suc f) (suc g) (suc a) b p q =
    omega (arith, or_digits_enough f g (suc a / 2) (b / 2) (omega arith) (omega arith))

pub zero-bit_or : (b : ℕ) → bit_or 0 b ≡ b
zero-bit_or b = bit_or-bitwise 0 b

-- The lowest digit, and the others.
bit_or_peel : (a b : ℕ) → bit_or a b ≡ bit_or (a / 2) (b / 2) * 2 + max (a % 2) (b % 2)
bit_or_peel zero b = omega (arith, zero-bit_or b, zero-bit_or (b / 2))
bit_or_peel (suc a) b = omega (
  arith,
  bit_or-bitwise (suc a) b,
  bit_or-bitwise (suc a / 2) (b / 2),
  or_digits_enough a (suc a / 2) (suc a / 2) (b / 2) (omega arith) (omega arith),
)

bit_or-zero_below : (n a : ℕ) → a ≤ n → bit_or a 0 ≡ a
bit_or-zero_below n zero h = zero-bit_or 0
bit_or-zero_below zero (suc a) h = absurd (omega arith)
bit_or-zero_below (suc n) (suc a) h =
    omega (arith, bit_or_peel (suc a) 0, bit_or-zero_below n (suc a / 2) (omega arith))

double_power : (q k : ℕ) → q * 2 ^ suc k ≡ q * 2 ^ k * 2
double_power q k = omega (arith, ap (λ (t : ℕ). q * t) (pow-suc 2 k))

-- A low field under a high one that is already there.
pub bit_or_high : (k q r : ℕ) → r < 2 ^ k → bit_or r (q * 2 ^ k) ≡ r + q * 2 ^ k
bit_or_high zero q zero h = omega (arith, zero-bit_or (q * 1))
bit_or_high zero q (suc r) h = absurd (omega arith)
bit_or_high (suc k) q r h = ground (
  arith,
  bit_or_peel r (q * 2 ^ suc k),
  double_power q k,
  pow-suc 2 k,
  bit_or_high k q (r / 2) (omega (arith, pow-suc 2 k)),
)

-- A low field that is put under a shifted word.
pub bit_or_low : (k q r : ℕ) → r < 2 ^ k → bit_or (q * 2 ^ k) r ≡ q * 2 ^ k + r
bit_or_low zero q zero h = omega (arith, bit_or-zero_below (q * 1) (q * 1) (omega arith))
bit_or_low zero q (suc r) h = absurd (omega arith)
bit_or_low (suc k) q r h = ground (
  arith,
  bit_or_peel (q * 2 ^ suc k) r,
  double_power q k,
  pow-suc 2 k,
  bit_or_low k q (r / 2) (omega (arith, pow-suc 2 k)),
)

and_digits_enough : (f g a b : ℕ) → a ≤ f → a ≤ g → and_digits f a b ≡ and_digits g a b
and_digits_enough zero zero a b p q = refl
and_digits_enough zero (suc g) zero b p q = refl
and_digits_enough zero (suc g) (suc a) b p q = absurd (omega arith)
and_digits_enough (suc f) zero zero b p q = refl
and_digits_enough (suc f) zero (suc a) b p q = absurd (omega arith)
and_digits_enough (suc f) (suc g) zero b p q = refl
and_digits_enough (suc f) (suc g) (suc a) b p q =
    omega (arith, and_digits_enough f g (suc a / 2) (b / 2) (omega arith) (omega arith))

bit_and_peel : (a b : ℕ) → bit_and a b ≡ bit_and (a / 2) (b / 2) * 2 + min (a % 2) (b % 2)
bit_and_peel zero b = omega (arith, bit_and-bitwise 0 b, bit_and-bitwise 0 (b / 2))
bit_and_peel (suc a) b = omega (
  arith,
  bit_and-bitwise (suc a) b,
  bit_and-bitwise (suc a / 2) (b / 2),
  and_digits_enough a (suc a / 2) (suc a / 2) (b / 2) (omega arith) (omega arith),
)

bit_and-zero_below : (n a : ℕ) → a ≤ n → bit_and a 0 ≡ 0
bit_and-zero_below n zero h = bit_and-bitwise 0 0
bit_and-zero_below zero (suc a) h = absurd (omega arith)
bit_and-zero_below (suc n) (suc a) h =
    omega (arith, bit_and_peel (suc a) 0, bit_and-zero_below n (suc a / 2) (omega arith))

-- The lowest bit.
pub bit_and-one : (a : ℕ) → bit_and a 1 ≡ a % 2
bit_and-one a = omega (arith, bit_and_peel a 1, bit_and-zero_below (a / 2) (a / 2) (omega arith))

every : ℕ → (ℕ → Bool) → Bool
every zero p = true
every (suc n) p = if p n then every n p else false

every→at : (n : ℕ) (p : ℕ → Bool) (x : ℕ) → every n p ≡ true → x < n → p x ≡ true
unfolding every
every→at zero p x h lt = absurd (omega arith)
every→at (suc n) p x h lt = ground (arith, every→at n p x)

six_bits_table : every 256 (λ b. nat_beq (bit_and b 0x3f) (b % 64)) ≡ true
unfolding every
six_bits_table = refl

-- The low six bits of a byte.
pub six_bits : (b : ℕ) → b < 256 → bit_and b 0x3f ≡ b % 64
six_bits b h = (nat_beq_iff _ _).0 (every→at 256 _ b six_bits_table h)
