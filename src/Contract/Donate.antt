-- ===== src/Contract/Donate.antt =====
-- `donate` of campaign/src/lib.rs, in four parts that follow one another in the code.
use orbit_chain_contracts.Common.{
  ℕ, ℤ, pos, Bool, not, ◌&&◌, ◌||◌, Option, none, some, List, [], ◌∷◌, unwrap_or, leb_ℤ, ltb_ℤ,
  checked_add, if◌then◌else◌,
}
use orbit_chain_contracts.Types.{
  Address, AssetInfo, CampaignData, DonorRecord, new_for, apply_donation, goal_reached,
  accepts_donations, is_active, not_initialized, campaign_not_active, donation_too_small, overflow,
}
use orbit_chain_contracts.Types
use orbit_chain_contracts.Host.{
  Env, Event, M, ⊤, pure, panic_if, or_panic, require_auth, publish, ◌>>=◌, ◌>>◌,
}
use orbit_chain_contracts.Storage.{
  acquire_lock, release_lock, get_campaign, set_campaign, is_frozen, is_asset_blocked,
  storage_get_total_raised, storage_set_total_raised, storage_increment_asset_raised,
  increment_donor_asset_donation, get_donor, set_donor, storage_increment_donation_count,
  storage_increment_unique_donor_count, unlock_milestones_batch,
}
use orbit_chain_contracts.AssetAuth.{assert_asset_is_accepted}
use orbit_chain_contracts.Validation.{get_token_address_for_asset, resolve_asset_code}
use orbit_chain_contracts.Reports.{refresh_report_cache}

-- `campaign.raised_amount >= campaign.goal_amount && campaign.status == Active`, for the new amount.
abbrev pub reaches_goal : CampaignData → ℤ → Bool
reaches_goal c raised = leb_ℤ c.goal_amount raised && is_active c.status

-- The campaign record with the new amount, and the transition to `GoalReached`.
unfoldable pub raise_campaign : CampaignData → ℤ → CampaignData
raise_campaign c raised = record c {
  raised_amount = raised;
  status = if reaches_goal c raised then goal_reached else c.status;
}

abbrev pub too_small : CampaignData → ℤ → Bool
too_small c amount =
    leb_ℤ amount (pos 0)
    || (ltb_ℤ (pos 0) c.min_donation_amount && ltb_ℤ amount c.min_donation_amount)

module _ {T : Type 0} (env : Env T) where
  -- From the lock to the test of the amount; the result is the campaign.
  unfoldable pub donate_checks : Address → ℤ → AssetInfo → M T CampaignData
  unfolding acquire_lock get_campaign assert_asset_is_accepted is_frozen
  donate_checks donor amount asset = do
    acquire_lock
    found ← get_campaign
    c ← or_panic found not_initialized
    assert_asset_is_accepted asset c
    require_auth env donor
    halted ← is_frozen
    panic_if halted Types.contract_frozen
    panic_if (not (accepts_donations c.status)) campaign_not_active
    panic_if (too_small c amount) donation_too_small
    pure c

  announce_goal : CampaignData → ℤ → M T ⊤
  announce_goal c raised =
      if reaches_goal c raised then publish (Event.campaign_goal_reached raised) else pure tt

  -- The new amount in the campaign record and in the total; the result is the new record.
  unfoldable pub donate_raise : CampaignData → ℤ → M T CampaignData
  unfolding checked_add announce_goal raise_campaign set_campaign storage_get_total_raised
      storage_set_total_raised
  donate_raise c amount = do
    raised ← or_panic (checked_add c.raised_amount amount) overflow
    announce_goal c raised
    set_campaign (raise_campaign c raised)
    total ← storage_get_total_raised
    new_total ← or_panic (checked_add total amount) overflow
    storage_set_total_raised new_total
    pure (raise_campaign c raised)

  count_new_donor : Option DonorRecord → M T ⊤
  unfolding storage_increment_unique_donor_count
  count_new_donor none = do storage_increment_unique_donor_count; pure tt
  count_new_donor (some r) = pure tt

  -- The accounts of the token and of the donor in that token.
  unfoldable pub donate_accounts : CampaignData → Address → ℤ → AssetInfo → M T ⊤
  unfolding get_token_address_for_asset is_asset_blocked storage_increment_asset_raised
      increment_donor_asset_donation
  donate_accounts c donor amount asset = do
    token ← get_token_address_for_asset asset c
    blocked ← is_asset_blocked token
    panic_if blocked Types.asset_blocked
    storage_increment_asset_raised token amount
    increment_donor_asset_donation donor token amount

  -- The donor's record and the counters.
  unfoldable pub donate_record : Address → ℤ → AssetInfo → M T ⊤
  unfolding get_donor set_donor storage_increment_donation_count count_new_donor
  donate_record donor amount asset = do
    existing ← get_donor donor
    r ←
        or_panic
          (apply_donation (unwrap_or existing (new_for donor asset)) amount env.timestamp
            env.sequence asset)
          overflow
    set_donor donor r
    storage_increment_donation_count
    count_new_donor existing

  -- One event for each milestone that the donation unlocked.
  unfoldable pub announce_unlocked : ℤ → List (ℕ × ℤ) → M T ⊤
  announce_unlocked raised [] = pure tt
  announce_unlocked raised ((i, target) ∷ rest) = do
    publish (Event.milestone_unlocked env.current_contract_address i target raised)
    announce_unlocked raised rest

  -- The milestones, the event and the report.
  unfoldable pub donate_finish : CampaignData → Address → ℤ → AssetInfo → M T ⊤
  donate_finish c donor amount asset = do
    newly ← unlock_milestones_batch c.raised_amount
    announce_unlocked c.raised_amount newly
    publish (
        Event.donation_received env.current_contract_address donor amount
          (resolve_asset_code asset c) c.raised_amount env.timestamp)
    refresh_report_cache
    release_lock

  unfoldable pub donate : Address → ℤ → AssetInfo → M T ⊤
  donate donor amount asset = do
    c ← donate_checks donor amount asset
    c' ← donate_raise c amount
    donate_accounts c' donor amount asset
    donate_record donor amount asset
    donate_finish c' donor amount asset
