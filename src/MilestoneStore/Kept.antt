-- ===== src/MilestoneStore/Kept.antt =====
-- A scan that unlocks milestones leaves every released milestone as it is.
use orbit_chain_contracts.Common.{
  ℕ, zero, suc, ℤ, ◌≡◌, refl, true, List, [], ◌∷◌, length, get_elem?, some, arith, ltb, Bool-cases,
  inl, inr,
}
use orbit_chain_contracts.Types.{MilestoneData, is_released}
use orbit_chain_contracts.Host.{State}
use orbit_chain_contracts.Storage.{entry_at, milestones, milestone_at, unlock_from}

length-unlock_from :
    (i : ℕ) (raised : ℤ) (ms : List MilestoneData) → length (unlock_from i raised ms).0 ≡ length ms
unfolding unlock_from
length-unlock_from i raised [] = refl
length-unlock_from i raised (m ∷ ms) = ground (arith, length-unlock_from (suc i) raised ms)

unlock_from-released :
    (i : ℕ) (raised : ℤ) (ms : List MilestoneData) (j : ℕ) (m : MilestoneData)
    → get_elem? ms j ≡ some m
    → is_released m.status ≡ true
    → get_elem? (unlock_from i raised ms).0 j ≡ some m
unfolding unlock_from
unlock_from-released i raised [] j m h r = absurd (ground arith)
unlock_from-released i raised (x ∷ ms) zero m h r = ground arith
unlock_from-released i raised (x ∷ ms) (suc j) m h r =
    let kept = unlock_from-released (suc i) raised ms j m h r in ground arith

-- The released milestones survive the scan, in either layout.
pub milestone_at-unlock :
    {T : Type 0} (raised : ℤ) (s s' : State T) (j : ℕ) (m : MilestoneData)
    → milestones s' ≡ (unlock_from 0 raised (milestones s)).0
    → s'.milestone_data ≡ s.milestone_data
    → milestone_at s j ≡ some m
    → is_released m.status ≡ true
    → milestone_at s' j ≡ some m
unfolding entry_at
milestone_at-unlock raised s s' j m scan same h r =
    let long = length-unlock_from 0 raised (milestones s) in
    elim (Bool-cases (ltb j (length (milestones s)))) [
      | inl inside ↦
          let kept = unlock_from-released 0 raised (milestones s) j m (ground arith) r in
          ground arith
      | inr outside ↦ ground arith
    ]
