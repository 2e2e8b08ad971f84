-- ===== src/Contract/Refund.antt =====
-- `is_refund_eligible` and `claim_refund` of campaign/src/lib.rs.
use orbit_chain_contracts.Common.{
  ℕ, zero, suc, ℤ, pos, Bool, true, false, is_none, Option, none, some, List, [], ◌∷◌, ◌+ℤ◌, ◌-ℤ◌,
  ltb_ℤ, wrap_i128, if◌then◌else◌,
}
use orbit_chain_contracts.Types.{
  Address, StellarAsset, CampaignData, MilestoneData, DonorRecord, not_initialized, no_donor_record,
  insufficient_contract_balance,
}
use orbit_chain_contracts.Types
use orbit_chain_contracts.Host.{
  Env, Event, M, ⊤, pure, gets, panic_if, or_panic, require_auth, publish, transfer, ◌>>=◌, ◌>>◌,
}
use orbit_chain_contracts.Storage.{
  acquire_lock, release_lock, get_campaign, is_frozen, get_milestone, get_donor, set_donor,
  get_donor_asset_donation,
}
use orbit_chain_contracts.Validation.{check_refund_eligibility, or_error}
use orbit_chain_contracts.Reports.{calculate_refund_amount, refresh_report_cache}

-- `total_released += milestone.released_amount`; `+` wraps in the release profile.
abbrev pub add_released : ℤ → Option MilestoneData → ℤ
add_released acc none = acc
add_released acc (some m) = wrap_i128 (acc +ℤ m.released_amount)

module _ {T : Type 0} where
  eligible_donor : Env T → CampaignData → Option DonorRecord → M T Bool
  unfolding check_refund_eligibility
  eligible_donor env c none = pure false
  eligible_donor env c (some r) = do e ← check_refund_eligibility env c r; pure (is_none e)

  eligible : Env T → Address → Option CampaignData → M T Bool
  unfolding get_donor eligible_donor
  eligible env donor none = pure false
  eligible env donor (some c) = do existing ← get_donor donor; eligible_donor env c existing

  unfoldable pub is_refund_eligible : Env T → Address → M T Bool
  unfolding get_campaign eligible
  is_refund_eligible env donor = do found ← get_campaign; eligible env donor found

  -- The sum over the milestones `i .. i + n`.
  unfoldable pub sum_released : ℕ → ℕ → ℤ → M T ℤ
  unfolding get_milestone wrap_i128
  sum_released i zero acc = pure acc
  sum_released i (suc n) acc = do
    found ← get_milestone i
    sum_released (suc i) n (add_released acc found)

module _ {T : Type 0} (env : Env T) where
  unfoldable pub pay_refund : Address → Address → ℤ → M T ⊤
  pay_refund donor token amount = do
    balance ← gets (λ s. env.balance s.tokens token env.current_contract_address)
    panic_if (ltb_ℤ balance amount) insufficient_contract_balance
    transfer env token env.current_contract_address donor amount
    publish (Event.asset_refund donor token amount)

  unfoldable pub pay_if_positive : Address → Address → ℤ → M T ⊤
  unfolding pay_refund
  pay_if_positive donor token amount =
      if ltb_ℤ (pos 0) amount then pay_refund donor token amount else pure tt

  -- The refund in one token, of which the donor gave `given`.
  unfoldable pub refund_given : Address → ℤ → ℤ → Address → ℤ → M T ⊤
  refund_given donor numerator denominator token given =
      if ltb_ℤ (pos 0) given
      then (do
        amount ← calculate_refund_amount given numerator denominator
        pay_if_positive donor token amount)
      else pure tt

  -- The loop's body; an asset without an issuer is skipped.
  unfoldable pub refund_asset : Address → ℤ → ℤ → Option Address → M T ⊤
  unfolding get_donor_asset_donation refund_given
  refund_asset donor numerator denominator none = pure tt
  refund_asset donor numerator denominator (some token) = do
    given ← get_donor_asset_donation donor token
    refund_given donor numerator denominator token given

  unfoldable pub refund_assets : Address → ℤ → ℤ → List StellarAsset → M T ⊤
  unfolding refund_asset
  refund_assets donor numerator denominator [] = pure tt
  refund_assets donor numerator denominator (a ∷ rest) = do
    refund_asset donor numerator denominator a.issuer
    refund_assets donor numerator denominator rest

  -- From the lock to the donor's record.
  unfoldable pub refund_load : Address → M T (CampaignData × DonorRecord)
  unfolding acquire_lock get_campaign get_donor is_frozen
  refund_load donor = do
    acquire_lock
    require_auth env donor
    halted ← is_frozen
    panic_if halted Types.contract_frozen
    found ← get_campaign
    c ← or_panic found not_initialized
    existing ← get_donor donor
    r ← or_panic existing no_donor_record
    pure (c, r)

  -- The eligibility check, whose error ends the call.
  unfoldable pub refund_gate : CampaignData → DonorRecord → M T ⊤
  refund_gate c r = do e ← check_refund_eligibility env c r; or_error e

  unfoldable pub claim_refund : Address → M T ⊤
  claim_refund donor = do
    (c, r) ← refund_load donor
    refund_gate c r
    total_released ← sum_released 0 c.milestone_count (pos 0)
    set_donor donor (record r { refund_claimed = true })
    refund_assets donor (wrap_i128 (c.raised_amount -ℤ total_released)) c.raised_amount
        c.accepted_assets
    publish (Event.refund_claimed donor r.total_donated)
    refresh_report_cache
    release_lock
