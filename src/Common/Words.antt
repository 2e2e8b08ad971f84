-- ===== src/Common/Words.antt =====
-- Machine integers: the checked, saturating and wrapping operations of Rust's `u32`, `u64` and
-- `i128`. A value is kept as a plain number and its range is stated where it matters.
use Prim.Native.Nat.{ℕ, suc, ◌+◌, ◌-◌, ◌*◌, ◌%◌, min}
use mathlib.Core.Path.{◌≡◌}
use mathlib.Core.Bool.{Bool}
use mathlib.Core.Option.{Option, none, some}
use native.Mathlib.Omega.{arith}
use orbit_chain_contracts.Common.Tests.{ltb, leb, if◌then◌else◌}
use orbit_chain_contracts.Common.Int.{ℤ, pos, negsuc, pos_part, neg_part, ◌+ℤ◌, ◌-ℤ◌, ◌*ℤ◌}

abbrev pub u32_max : ℕ
u32_max = 4294967295

abbrev pub u64_max : ℕ
u64_max = 18446744073709551615

-- 2 ^ 127
abbrev pub i128_bound : ℕ
i128_bound = 170141183460469231731687303715884105728

abbrev pub checked_add_u32 : ℕ → ℕ → Option ℕ
checked_add_u32 a b = if leb (a + b) u32_max then some (a + b) else none

abbrev pub checked_add_u64 : ℕ → ℕ → Option ℕ
checked_add_u64 a b = if leb (a + b) u64_max then some (a + b) else none

abbrev pub saturating_add_u64 : ℕ → ℕ → ℕ
saturating_add_u64 a b = min (a + b) u64_max

-- `+` in a build without overflow checks.
abbrev pub wrapping_add_u64 : ℕ → ℕ → ℕ
wrapping_add_u64 a b = (a + b) % suc u64_max

abbrev pub in_i128 : ℤ → Bool
in_i128 (pos n) = ltb n i128_bound
in_i128 (negsuc n) = ltb n i128_bound

abbrev pub checked_i128 : ℤ → Option ℤ
checked_i128 z = if in_i128 z then some z else none

unfoldable pub checked_add : ℤ → ℤ → Option ℤ
checked_add a b = checked_i128 (a +ℤ b)

unfoldable pub checked_sub : ℤ → ℤ → Option ℤ
checked_sub a b = checked_i128 (a -ℤ b)

unfoldable pub checked_mul : ℤ → ℤ → Option ℤ
checked_mul a b = checked_i128 (a *ℤ b)

-- Two's complement: the integer of 128 bits that is congruent to `z`.
unfoldable pub wrap_i128 : ℤ → ℤ
wrap_i128 z =
    let m = i128_bound + i128_bound in
    let r = (pos_part z + m * (neg_part z) - neg_part z) % m in
    if ltb r i128_bound then pos r else negsuc (m - r - 1)

pub checked_add-eq : (a b c : ℤ) → checked_add a b ≡ some c → c ≡ a +ℤ b
unfolding checked_add
checked_add-eq a b c h = ground arith

pub checked_sub-eq : (a b c : ℤ) → checked_sub a b ≡ some c → c ≡ a -ℤ b
unfolding checked_sub
checked_sub-eq a b c h = ground arith

pub checked_mul-eq : (a b c : ℤ) → checked_mul a b ≡ some c → c ≡ a *ℤ b
unfolding checked_mul
checked_mul-eq a b c h = ground arith
