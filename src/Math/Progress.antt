-- ===== src/Math/Progress.antt =====
-- The progress of a campaign in basis points, of campaign/src/reports.rs.
use native.Mathlib.Decide.{dec_le}
use orbit_chain_contracts.Common.{ℕ, ◌+◌, ◌*◌, ◌/◌, ◌≤◌, ◌<◌, ◌≡◌, pos, ◌*ℤ◌, arith, quot}
use orbit_chain_contracts.Types.{CampaignData}
use orbit_chain_contracts.Reports.{progress_bps}
use orbit_chain_contracts.Effects.Report.{progress}
use orbit_chain_contracts.Math.Division.{div_bounds, *ℤ-pos, factor_le, mul_le}

fits : (g r : ℕ) → 0 < g → r < g → r * 10000 / g ≤ 10000
fits g r h k =
    let (low, _) = div_bounds (r * 10000) g h in factor_le g 10000 (r * 10000 / g) h (omega arith)

bps_eq :
    (c : CampaignData) (g r : ℕ)
    → c.goal_amount ≡ pos g
    → c.raised_amount ≡ pos r
    → 0 < g
    → r < g
    → progress_bps c (c.raised_amount *ℤ pos 10000) ≡ r * 10000 / g
unfolding progress_bps quot
bps_eq c g r e f h k = let small = fits g r h k in rw f (rw (*ℤ-pos r 10000) (rw e (omega arith)))

zero_share : (g r : ℕ) → 0 < g → r ≡ 0 → r * 10000 / g ≡ 0
zero_share g r h k =
    let (low, _) = div_bounds (r * 10000) g h in
    elim (dec_le (r * 10000 / g) 0) [
      | yes le ↦ omega arith
      | no more ↦ absurd (grind (arith, mul_le g 1 (r * 10000 / g) (omega arith)))
    ]

progress_eq :
    (c : CampaignData) (g r : ℕ)
    → c.goal_amount ≡ pos g
    → c.raised_amount ≡ pos r
    → 0 < g
    → r < g
    → progress c ≡ r * 10000 / g
unfolding progress
progress_eq c g r e f h k =
    let bps = bps_eq c g r e f h k in
    elim (dec_le r 0) [
      | yes none_raised ↦ let z = zero_share g r h (omega arith) in ground arith
      | no some_raised ↦ ground arith
    ]

progress_full :
    (c : CampaignData) (g r : ℕ)
    → c.goal_amount ≡ pos g
    → c.raised_amount ≡ pos r
    → 0 < g
    → r ≡ g
    → progress c ≡ 10000
unfolding progress
progress_full c g r e f h k = ground arith

-- Where no more than the goal was raised, the progress is the floor of the exact ratio in basis
-- points, and at most 10000.
pub progress_bounds :
    (c : CampaignData) (g r : ℕ)
    → c.goal_amount ≡ pos g
    → c.raised_amount ≡ pos r
    → 0 < g
    → r ≤ g
    → (progress c * g ≤ r * 10000) × (r * 10000 < (progress c + 1) * g) × (progress c ≤ 10000)
progress_bounds c g r e f h k = elim (dec_le g r) [
  | yes all ↦ rw (progress_full c g r e f h (omega arith)) (omega arith, omega arith, omega arith)
  | no part ↦
      let (low, high) = div_bounds (r * 10000) g h in
      rw (progress_eq c g r e f h (omega arith)) (low, high, fits g r h (omega arith))
]
