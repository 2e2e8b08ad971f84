-- ===== src/Effects/Refund/Parts.antt =====
-- The parts of `claim_refund` of campaign/src/lib.rs: eligibility and the sum of what was released.
use orbit_chain_contracts.Common.{
  ℕ, zero, suc, ℤ, ◌≡◌, refl, sym, ap, ◌∙◌, inl, inr, Bool, true, false, Option, none, some, List,
  arith, leb, wrapping_add_u64, Bool-cases,
}
use orbit_chain_contracts.Types.{
  CampaignData, DonorRecord, MilestoneData, CampaignStatus, cancelled, ended, DataKey,
}
use orbit_chain_contracts.Host.{Env, State, ok}
use orbit_chain_contracts.Host.Inversion.{Result-cases}
use orbit_chain_contracts.Storage.{entry_at, milestone_at, entry_at, bump_persistent}
use orbit_chain_contracts.Validation.{
  released_among, is_released_entry, check_refund_eligibility, refund_window,
}
use orbit_chain_contracts.Contract.{add_released, sum_released, refund_gate}

-- What the loop over the assets may change.
abbrev pub PaysOnly : {T : Type 0} → State T → State T → Type 0
PaysOnly s s' = s' ≡ record s { tokens = s'.tokens; events = s'.events; ttl_calls = s'.ttl_calls }

-- Two changes of tokens, events and lifetimes are one.
pub PaysOnly-trans : {T : Type 0} (s t u : State T) → PaysOnly s t → PaysOnly t u → PaysOnly s u
PaysOnly-trans s t u p q = ground arith

-- No milestone in `i .. i + n` is released, as the two layouts hold them.
abbrev pub NoneReleased : Option (List MilestoneData) → List (ℕ × MilestoneData) → ℕ → ℕ → Type 0
NoneReleased v m i zero = Unit
NoneReleased v m i (suc n) =
    (is_released_entry (entry_at v m i) ≡ false) × NoneReleased v m (suc i) n

-- What a refund needs of the campaign beside its status.
abbrev pub StatusAllows :
    Option (List MilestoneData) → List (ℕ × MilestoneData) → CampaignStatus → ℕ → Type 0
StatusAllows v m cancelled n = Unit
StatusAllows v m ended n = NoneReleased v m 0 n
StatusAllows v m _ n = ⊥

-- The sum of what the milestones `i .. i + n` have released, with the wrap-around of an i128.
pub released_sum : Option (List MilestoneData) → List (ℕ × MilestoneData) → ℕ → ℕ → ℤ → ℤ
released_sum v m i zero acc = acc
released_sum v m i (suc n) acc = released_sum v m (suc i) n (add_released acc (entry_at v m i))

module _ {T : Type 0} where
  released_among-step :
      (i n : ℕ) (s : State T)
      → is_released_entry (milestone_at s i) ≡ false
      → released_among i (suc n) s
        ≡ released_among (suc i) n (bump_persistent DataKey.milestones_vec s)
  unfolding released_among
  released_among-step i n s h = ground arith

  released_among_lem :
      (i n : ℕ) (s : State T) {b : Bool} {s' : State T}
      → released_among i n s ≡ ok (b, s')
      → (s' ≡ record s { ttl_calls = s'.ttl_calls })
        × (b ≡ false → NoneReleased s.milestones_vec s.milestone_data i n)
  unfolding released_among
  released_among_lem i zero s h = ground arith
  released_among_lem i (suc n) s h = elim (Bool-cases (is_released_entry (milestone_at s i))) [
    | inl found ↦ ground arith
    | inr other ↦
        let (frame, none_released) =
          released_among_lem (suc i) n (bump_persistent DataKey.milestones_vec s)
            (sym (released_among-step i n s other) ∙ h) in
        (frame, λ e. (other, none_released e))
  ]

  check_eligibility_by_status :
      (st : CampaignStatus) (env : Env T) (c : CampaignData) (r : DonorRecord) (s : State T)
      {s' : State T}
      → c.status ≡ st
      → check_refund_eligibility env c r s ≡ ok (none, s')
      → (s' ≡ record s { ttl_calls = s'.ttl_calls })
        × StatusAllows s.milestones_vec s.milestone_data st c.milestone_count
        × (leb env.timestamp (wrapping_add_u64 c.end_time refund_window) ≡ true)
        × (r.refund_claimed ≡ false)
  unfolding check_refund_eligibility
  check_eligibility_by_status ended env c r s e h =
      elim (Result-cases (released_among 0 c.milestone_count s)) [
        | inl (b, t, found) ↦ ground (arith, released_among_lem 0 c.milestone_count s found)
        | inr (x, failed) ↦ absurd (ground arith)
      ]
  check_eligibility_by_status cancelled env c r s e h = ground arith
  check_eligibility_by_status _ env c r s e h = absurd (ground arith)

  pub check_refund_eligibility_lem :
      (env : Env T) (c : CampaignData) (r : DonorRecord) (s : State T) {s' : State T}
      → check_refund_eligibility env c r s ≡ ok (none, s')
      → (s' ≡ record s { ttl_calls = s'.ttl_calls })
        × StatusAllows s.milestones_vec s.milestone_data c.status c.milestone_count
        × (leb env.timestamp (wrapping_add_u64 c.end_time refund_window) ≡ true)
        × (r.refund_claimed ≡ false)
  check_refund_eligibility_lem env c r s h = check_eligibility_by_status c.status env c r s refl h

  pub refund_gate_lem :
      (env : Env T) (c : CampaignData) (r : DonorRecord) (s : State T) {s' : State T}
      → refund_gate env c r s ≡ ok (tt, s')
      → (s' ≡ record s { ttl_calls = s'.ttl_calls })
        × StatusAllows s.milestones_vec s.milestone_data c.status c.milestone_count
        × (leb env.timestamp (wrapping_add_u64 c.end_time refund_window) ≡ true)
        × (r.refund_claimed ≡ false)
  unfolding refund_gate
  refund_gate_lem env c r s h = elim (Result-cases (check_refund_eligibility env c r s)) [
    | inl (none, t, e) ↦
        let same : t ≡ _ = ground arith in
        check_refund_eligibility_lem env c r s (e ∙ ap (λ (w : State T). ok (none, w)) same)
    | inl (some x, t, e) ↦ absurd (ground arith)
    | inr (x, e) ↦ absurd (ground arith)
  ]

  pub sum_released_lem :
      (i n : ℕ) (acc : ℤ) (s : State T) {total : ℤ} {s' : State T}
      → sum_released i n acc s ≡ ok (total, s')
      → (total ≡ released_sum s.milestones_vec s.milestone_data i n acc)
        × (s' ≡ record s { ttl_calls = s'.ttl_calls })
  unfolding sum_released released_sum
  sum_released_lem i zero acc s h = ground arith
  sum_released_lem i (suc n) acc s h =
      sum_released_lem (suc i) n (add_released acc (milestone_at s i))
        (bump_persistent DataKey.milestones_vec s) h
