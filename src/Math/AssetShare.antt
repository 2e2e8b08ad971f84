-- ===== src/Math/AssetShare.antt =====
-- `compute_asset_release` of campaign/src/multi_asset_release.rs.
use native.Mathlib.Nat.{div-eq_of_lt}
use orbit_chain_contracts.Common.{
  ℕ, zero, suc, negsuc, i128_bound, none, Option, ◌⊎◌, Bool-cases, leb, ltb, ◌+◌, ◌*◌, ◌/◌, ◌≤◌,
  ◌<◌, ◌≡◌, refl, sym, subst, ap, ◌∙◌, ℤ, pos, ◌≤ℤ◌, ◌+ℤ◌, arith, quot, checked_mul, inl, inr, some,
  Option-cases, unwrap_or, List, [], ◌∷◌,
}
use orbit_chain_contracts.MultiRelease.{compute_asset_release}
use orbit_chain_contracts.Math.Division.{div_bounds, factor_le, product_le, *ℤ-pos, add_pos}

-- On amounts that are not negative: the quotient, where it is positive and the product fits.
share_cases :
    (a m t : ℕ) {r : ℤ}
    → compute_asset_release (pos a) (pos m) (pos t) ≡ some r
    → (0 < t) × (r ≡ pos (a * m / t)) × (1 ≤ a * m / t)
unfolding compute_asset_release quot checked_mul
share_cases a m t h = ground (arith, *ℤ-pos a m)

-- A share that is paid is the floor of the exact share and at least one unit.
pub compute_asset_release_bounds :
    (a m t : ℕ) {r : ℤ}
    → compute_asset_release (pos a) (pos m) (pos t) ≡ some r
    → (k : ℕ) × (r ≡ pos k) × (1 ≤ k) × (k * t ≤ a * m) × (a * m < (k + 1) * t)
compute_asset_release_bounds a m t h =
    let (positive, e, least) = share_cases a m t h in
    let (low, high) = div_bounds (a * m) t positive in (a * m / t, e, least, low, high)

-- A share that is paid is at most what the asset holds, where at most the total is released.
pub compute_asset_release_le :
    (a m t : ℕ) {r : ℤ}
    → m ≤ t
    → compute_asset_release (pos a) (pos m) (pos t) ≡ some r
    → r ≤ℤ pos a
compute_asset_release_le a m t le h =
    let (positive, e, least) = share_cases a m t h in
    let (low, _) = div_bounds (a * m) t positive in
    let whole = product_le a m t le in
    let k_le = factor_le t a (a * m / t) positive (omega arith) in rw e (omega arith)

-- The share of an asset that holds `a` of `t` in a release of `m`, without the code: the floor of the
-- exact share, where it is at least one unit and the product is an `i128`; otherwise nothing.
pub data IsShare : ℤ → ℤ → ℤ → Option ℤ → Type 0 where
  whole_share :
      (a m t k : ℕ)
      → 1 ≤ k
      → k * t ≤ a * m
      → a * m < (k + 1) * t
      → a * m < i128_bound
      → IsShare (pos a) (pos m) (pos t) (some (pos k))
  too_small : (a m t : ℕ) → a * m < t → IsShare (pos a) (pos m) (pos t) none
  too_large : (a m : ℕ) (t : ℤ) → i128_bound ≤ a * m → IsShare (pos a) (pos m) t none
  no_amount : (a m t : ℤ) → (a ≤ℤ pos 0) ⊎ (m ≤ℤ pos 0) ⊎ (t ≤ℤ pos 0) → IsShare a m t none

less_none : (a m t : ℕ) → a * m < t → compute_asset_release (pos a) (pos m) (pos t) ≡ none
unfolding compute_asset_release quot checked_mul
less_none a m t h =
    let zero_share : a * m / t ≡ 0 = div-eq_of_lt h in ground (arith, *ℤ-pos a m, zero_share)

large_none : (a m : ℕ) (t : ℤ) → i128_bound ≤ a * m → compute_asset_release (pos a) (pos m) t ≡ none
unfolding compute_asset_release checked_mul
large_none a m t h = ground (arith, *ℤ-pos a m)

share_some :
    (a m t : ℕ)
    → 1 ≤ a * m / t
    → 0 < a
    → 0 < m
    → 0 < t
    → a * m < i128_bound
    → compute_asset_release (pos a) (pos m) (pos t) ≡ some (pos (a * m / t))
unfolding compute_asset_release quot checked_mul
share_some a m t least h k l small = ground (arith, *ℤ-pos a m)

not_positive_none :
    (a m t : ℤ) → (a ≤ℤ pos 0) ⊎ (m ≤ℤ pos 0) ⊎ (t ≡ pos 0) → compute_asset_release a m t ≡ none
unfolding compute_asset_release
not_positive_none a m t (inl h) = ground (arith, h)
not_positive_none a m t (inr (inl h)) = ground (arith, h)
not_positive_none a m t (inr (inr h)) = ground (arith, h)

negative_none : (a m n : ℕ) → compute_asset_release (pos a) (pos m) (negsuc n) ≡ none
unfolding compute_asset_release quot checked_mul
negative_none a m n = ground (arith, *ℤ-pos a m)

at_least_one : (p t k : ℕ) → t ≤ p → p < (k + 1) * t → 1 ≤ k
at_least_one p t zero h l = absurd (omega (arith, h, l))
at_least_one p t (suc k) h l = omega arith

-- On amounts that are positive, the product either fits or does not, and the quotient is 0 or not.
natural-IsShare :
    (a m t : ℕ)
    → IsShare
        (pos (suc a))
        (pos (suc m))
        (pos (suc t))
        (compute_asset_release (pos (suc a)) (pos (suc m)) (pos (suc t)))
natural-IsShare a m t = elim (Bool-cases (ltb (suc a * suc m) (suc t))) [
  | inl e ↦
      let h : suc a * suc m < suc t = ground (arith, e) in
      subst (IsShare (pos (suc a)) (pos (suc m)) (pos (suc t)))
        (sym (less_none (suc a) (suc m) (suc t) h)) (too_small (suc a) (suc m) (suc t) h)
  | inr e ↦ elim (Bool-cases (leb i128_bound (suc a * suc m))) [
    | inl f ↦
        let h : i128_bound ≤ suc a * suc m = ground (arith, f) in
        subst (IsShare (pos (suc a)) (pos (suc m)) (pos (suc t)))
          (sym (large_none (suc a) (suc m) (pos (suc t)) h))
          (too_large (suc a) (suc m) (pos (suc t)) h)
    | inr f ↦
        let small : suc a * suc m < i128_bound = ground (arith, f) in
        let (low, high) = div_bounds (suc a * suc m) (suc t) (omega arith) in
        let least : 1 ≤ suc a * suc m / suc t =
          at_least_one (suc a * suc m) (suc t) (suc a * suc m / suc t) (ground (arith, e)) high in
        subst (IsShare (pos (suc a)) (pos (suc m)) (pos (suc t)))
          (sym (
            share_some (suc a) (suc m) (suc t) least (omega arith) (omega arith) (omega arith)
              small))
          (whole_share (suc a) (suc m) (suc t) (suc a * suc m / suc t) least low high small)
  ]
]

no_amount_share :
    (a m t : ℤ)
    → (a ≤ℤ pos 0) ⊎ (m ≤ℤ pos 0) ⊎ (t ≤ℤ pos 0)
    → compute_asset_release a m t ≡ none
    → IsShare a m t (compute_asset_release a m t)
no_amount_share a m t h e = subst (IsShare a m t) (sym e) (no_amount a m t h)

-- The code computes the share, on all amounts.
pub compute_asset_release-IsShare : (a m t : ℤ) → IsShare a m t (compute_asset_release a m t)
compute_asset_release-IsShare (negsuc a) m t =
    no_amount_share (negsuc a) m t (inl (omega arith))
      (not_positive_none (negsuc a) m t (inl (omega arith)))
compute_asset_release-IsShare (pos zero) m t =
    no_amount_share (pos 0) m t (inl (omega arith))
      (not_positive_none (pos 0) m t (inl (omega arith)))
compute_asset_release-IsShare (pos (suc a)) (negsuc m) t =
    no_amount_share (pos (suc a)) (negsuc m) t (inr (inl (omega arith)))
      (not_positive_none (pos (suc a)) (negsuc m) t (inr (inl (omega arith))))
compute_asset_release-IsShare (pos (suc a)) (pos zero) t =
    no_amount_share (pos (suc a)) (pos 0) t (inr (inl (omega arith)))
      (not_positive_none (pos (suc a)) (pos 0) t (inr (inl (omega arith))))
compute_asset_release-IsShare (pos (suc a)) (pos (suc m)) (pos zero) =
    no_amount_share (pos (suc a)) (pos (suc m)) (pos 0) (inr (inr (omega arith)))
      (not_positive_none (pos (suc a)) (pos (suc m)) (pos 0) (inr (inr refl)))
compute_asset_release-IsShare (pos (suc a)) (pos (suc m)) (negsuc t) =
    no_amount_share (pos (suc a)) (pos (suc m)) (negsuc t) (inr (inr (omega arith)))
      (negative_none (suc a) (suc m) t)
compute_asset_release-IsShare (pos (suc a)) (pos (suc m)) (pos (suc t)) = natural-IsShare a m t

-- What a release of `m` of `t` pays in all, over assets that hold these amounts.
abbrev pub total_shares : ℕ → ℕ → List ℕ → ℤ
total_shares m t [] = pos 0
total_shares m t (a ∷ rest) =
    unwrap_or (compute_asset_release (pos a) (pos m) (pos t)) (pos 0) +ℤ total_shares m t rest

abbrev pub sum : List ℕ → ℕ
sum [] = 0
sum (a ∷ rest) = a + sum rest

share_nat :
    (a m t : ℕ)
    → (k : ℕ) × (unwrap_or (compute_asset_release (pos a) (pos m) (pos t)) (pos 0) ≡ pos k)
      × (k * t ≤ a * m)
share_nat a m t = elim (Option-cases (compute_asset_release (pos a) (pos m) (pos t))) [
  | inl e ↦ (0, rw e refl, omega arith)
  | inr (r, e) ↦
      let (k, same, _, low, _) = compute_asset_release_bounds a m t e in (k, rw e same, low)
]

total_nat :
    (m t : ℕ) (held : List ℕ) → (k : ℕ) × (total_shares m t held ≡ pos k) × (k * t ≤ sum held * m)
total_nat m t [] = (0, refl, omega arith)
total_nat m t (a ∷ rest) =
    let (k, e, low) = share_nat a m t in
    let (n, f, below) = total_nat m t rest in
    (
      k + n,
      ap (λ v. v +ℤ total_shares m t rest) e ∙ (ap (λ v. pos k +ℤ v) f ∙ add_pos k n),
      grind arith,
    )

lift_le : (k m : ℕ) → k ≤ m → pos k ≤ℤ pos m
lift_le k m h = omega arith

-- However the total is split into assets, the shares of a release add up to at most the release:
-- rounding down never pays more than the milestone is worth.
pub total_shares-le_release :
    (m t : ℕ) (held : List ℕ) → 0 < t → sum held ≤ t → total_shares m t held ≤ℤ pos m
total_shares-le_release m t held positive within =
    let (k, e, low) = total_nat m t held in
    let most = product_le m (sum held) t within in
    rw e (lift_le k m (factor_le t m k positive (grind arith)))
