-- ===== src/Math/RefundShare.antt =====
-- `calculate_refund_amount` of campaign/src/reports.rs.
use orbit_chain_contracts.Common.{
  ℕ, ◌+◌, ◌*◌, ◌/◌, ◌≤◌, ◌<◌, ◌≡◌, refl, ◌⊎◌, inl, inr, ℤ, pos, negsuc, ◌≤ℤ◌, ◌*ℤ◌, false, arith,
  quot, checked_mul, suc, zero, leb_ℤ,
}
use orbit_chain_contracts.Math.Division.{div_bounds, factor_le, product_le, *ℤ-pos}
use orbit_chain_contracts.Host.{State, ok}
use orbit_chain_contracts.Reports.{refund_share, calculate_refund_amount}

-- The quotient, with the floor of one unit.
floored : ℕ → ℕ → ℕ
floored zero p = 1
floored (suc q) p = suc q

share_pos : (p d : ℕ) → refund_share (pos (suc p)) (pos d) ≡ pos (floored (suc p / d) p)
unfolding refund_share quot floored
share_pos p d = ground arith

floored_bounds :
    (q p d n : ℕ)
    → q * d ≤ suc p
    → suc p < (q + 1) * d
    → suc p ≤ n * d
    → (1 ≤ floored q p)
      × (floored q p ≤ n)
      × (suc p < (floored q p + 1) * d)
      × ((floored q p * d ≤ suc p) ⊎ ((floored q p ≡ 1) × (suc p < d)))
unfolding floored
floored_bounds zero p d zero h k m = absurd (omega arith)
floored_bounds zero p d (suc n) h k m =
    (omega arith, omega arith, omega arith, inr (refl, omega arith))
floored_bounds (suc q) p d n h k m =
    (omega arith, factor_le d n (suc q) (omega arith) (omega arith), k, inl h)

negative_share : (g m d : ℕ) → refund_share (pos g *ℤ negsuc m) (pos d) ≤ℤ pos 0
unfolding refund_share quot ◌*ℤ◌
negative_share g m d = ground arith

-- The share of a product `p` of what was given and the numerator.
share_bounds :
    (p given numerator d : ℕ)
    → p ≡ given * numerator
    → 0 < d
    → numerator ≤ d
    → (k : ℕ) × (refund_share (pos p) (pos d) ≡ pos k)
      × (k ≤ given)
      × (p < (k + 1) * d)
      × ((k * d ≤ p) ⊎ ((k ≡ 1) × (0 < p) × (p < d)))
unfolding refund_share quot
share_bounds zero given numerator d e h le =
    (0, ground arith, omega arith, omega arith, inl (omega arith))
share_bounds (suc p) given numerator d e h le =
    let (low, high) = div_bounds (suc p) d h in
    let fits : suc p ≤ given * d = rw e (product_le given numerator d le) in
    let (one, most, over, either) = floored_bounds (suc p / d) p d given low high fits in
    (floored (suc p / d) p, share_pos p d, most, over, widen either)
  where
    widen :
        (floored (suc p / d) p * d ≤ suc p) ⊎ ((floored (suc p / d) p ≡ 1) × (suc p < d))
        → (floored (suc p / d) p * d ≤ suc p)
          ⊎ ((floored (suc p / d) p ≡ 1) × (0 < suc p) × (suc p < d))
    widen (inl x) = inl x
    widen (inr (x, y)) = inr (x, omega arith, y)

-- A call that returns did not overflow, and changed nothing.
pub calculate_refund_amount-eq :
    {T : Type 0} (given numerator denominator : ℤ) (s : State T) {refund : ℤ} {s' : State T}
    → calculate_refund_amount given numerator denominator s ≡ ok (refund, s')
    → (leb_ℤ denominator (pos 0) ≡ false)
      × (refund ≡ refund_share (given *ℤ numerator) denominator)
      × (s' ≡ s)
unfolding calculate_refund_amount checked_mul
calculate_refund_amount-eq given numerator denominator s h = ground arith

-- Where the part still held is at most what was raised, the refund is the floor of the exact share
-- of what the donor gave, or one unit where that share is positive and below one; it never exceeds
-- what the donor gave, and the state is unchanged.
pub calculate_refund_amount_bounds :
    {T : Type 0} (given numerator denominator : ℕ) (s : State T) {refund : ℤ} {s' : State T}
    → numerator ≤ denominator
    → calculate_refund_amount (pos given) (pos numerator) (pos denominator) s ≡ ok (refund, s')
    → (k : ℕ) × (refund ≡ pos k)
      × (s' ≡ s)
      × (k ≤ given)
      × (given * numerator < (k + 1) * denominator)
      × ((k * denominator ≤ given * numerator)
          ⊎ ((k ≡ 1) × (0 < given * numerator) × (given * numerator < denominator)))
calculate_refund_amount_bounds given numerator denominator s le h =
    let (positive, e, same) =
      calculate_refund_amount-eq (pos given) (pos numerator) (pos denominator) s h in
    let (k, share, most, over, either) =
      share_bounds (given * numerator) given numerator denominator refl (ground arith) le in
    (k, cc (e, share, *ℤ-pos given numerator), same, most, over, either)

-- Where more has been released than was raised, nothing is refunded.
pub calculate_refund_amount-negative :
    {T : Type 0} (given released_more denominator : ℕ) (s : State T) {refund : ℤ} {s' : State T}
    → calculate_refund_amount (pos given) (negsuc released_more) (pos denominator) s
      ≡ ok (refund, s')
    → refund ≤ℤ pos 0
calculate_refund_amount-negative given released_more denominator s h =
    let (positive, e, same) =
      calculate_refund_amount-eq (pos given) (negsuc released_more) (pos denominator) s h in
    rw e (negative_share given released_more denominator)
