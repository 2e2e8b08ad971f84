-- ===== src/Math/Division.antt =====
-- Bounds of products and quotients of numbers, for the proportional shares of campaign/src.
use native.Mathlib.Nat.{div-add-mod, mod-lt}
use native.Mathlib.Decide.{dec_le}
use orbit_chain_contracts.Common.{ℕ, suc, ◌+◌, ◌*◌, ◌/◌, ◌≤◌, ◌<◌, ◌≡◌, pos, ◌*ℤ◌, ◌+ℤ◌, arith}

pub mul_le : (d n q : ℕ) → n ≤ q → n * d ≤ q * d
mul_le d n q h = grind arith

pub product_le : (g n d : ℕ) → n ≤ d → g * n ≤ g * d
product_le g n d h = grind arith

pub div_bounds : (p d : ℕ) → 0 < d → (p / d * d ≤ p) × (p < (p / d + 1) * d)
div_bounds p d h = grind (arith, div-add-mod, mod-lt)

-- A smaller multiple has a smaller factor.
pub factor_le : (d n q : ℕ) → 0 < d → q * d ≤ n * d → q ≤ n
factor_le d n q h k = elim (dec_le q n) [
  | yes le ↦ le
  | no more ↦ absurd (grind (arith, mul_le d (suc n) q (omega arith)))
]

pub *ℤ-pos : (a b : ℕ) → pos a *ℤ pos b ≡ pos (a * b)
unfolding ◌*ℤ◌
*ℤ-pos a b = ground arith

pub add_pos : (a b : ℕ) → pos a +ℤ pos b ≡ pos (a + b)
unfolding ◌+ℤ◌
add_pos a b = ground arith
