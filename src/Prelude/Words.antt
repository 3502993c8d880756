-- ===== src/Prelude/Words.antt =====
-- Machine integers: `u64`, and `usize` on a 64-bit target. A value is a natural number; what the
-- source does at the upper end is written out.
use Prim.Native.Nat.{ℕ, ◌+◌, ◌-◌, ◌^◌, ◌≤◌, ◌<◌}
use mathlib.Core.Path.{◌≡◌}
use mathlib.Core.Option.{Option, none, some}
use native.Mathlib.Omega.{arith}
use runen_net.Prelude.Tests.{ltb, leb, if◌then◌else◌}

abbrev pub u64_mod : ℕ
u64_mod = 2 ^ 64

abbrev pub IsU64 : ℕ → Type 0
IsU64 n = n < u64_mod

-- `a.checked_add(b)` on `u64` and on `usize`.
abbrev pub checked_add : ℕ → ℕ → Option ℕ
checked_add a b = if ltb (a + b) u64_mod then some (a + b) else none

-- `a.checked_sub(b)`.
abbrev pub checked_sub : ℕ → ℕ → Option ℕ
checked_sub a b = if leb b a then some (a - b) else none

-- `a.saturating_add(b)`.
abbrev pub saturating_add : ℕ → ℕ → ℕ
saturating_add a b = if ltb (a + b) u64_mod then a + b else u64_mod - 1

pub checked_add-eq_some : (a b : ℕ) → IsU64 (a + b) → checked_add a b ≡ some (a + b)
checked_add-eq_some a b h = ground arith

pub checked_sub-eq_some : (a b : ℕ) → b ≤ a → checked_sub a b ≡ some (a - b)
checked_sub-eq_some a b h = ground arith
