-- ===== src/Effects/Donation.antt =====
-- `donate` of campaign/src/lib.rs: what a call that returns has checked and changed.
mod Parts
pub use Parts.{Admitted, donor_before, add_to}
use orbit_chain_contracts.Common.{
  ℕ, ◌+◌, ℤ, pos, ◌+ℤ◌, ◌≡◌, refl, sym, ap, ◌∙◌, inl, inr, Bool, true, false, Option, none, some,
  List, [], ◌∷◌, arith, unwrap_or, is_none, update, update₂, leb_ℤ, Option-cases, if◌then◌else◌,
}
use orbit_chain_contracts.Types.{
  Address, AssetInfo, native, stellar, CampaignData, DonorRecord, accepts_donations, apply_donation,
  new_for,
}
use orbit_chain_contracts.Host.{Env, Event, State, ok, ◌>>=◌, ◌>>◌, publish}
use orbit_chain_contracts.Host.Inversion.{Split, >>=-eq-ok}
use orbit_chain_contracts.Storage.{
  milestones_or_legacy, entry_at, milestones, unlock_from, unlock_milestones_batch, release_lock,
}
use orbit_chain_contracts.AssetAuth.{is_asset_in_list}
use orbit_chain_contracts.Validation.{token_address_of, resolve_asset_code}
use orbit_chain_contracts.Reports.{refresh_report_cache}
use orbit_chain_contracts.Contract.{
  too_small, raise_campaign, donate_checks, donate_raise, donate_accounts, donate_record,
  announce_unlocked, donate_finish, donate,
}
use orbit_chain_contracts.MilestoneStore.Unlock.{unlock_milestones_batch_ok}
use orbit_chain_contracts.Effects.Report.{report_value, refresh_report_cache_lem, CacheOnly}
use orbit_chain_contracts.Effects.Donation.Parts.{
  FinishFrame, donate_checks-Admitted, donate_raise_lem, donate_accounts_lem, donate_record_lem,
  donate_finish_lem,
}

-- The new amount leaves the accepted assets, and so the resolved token, as they were.
token_address_of-raise :
    (asset : AssetInfo) (c : CampaignData) (raised : ℤ)
    → token_address_of asset (raise_campaign c raised) ≡ token_address_of asset c
unfolding token_address_of raise_campaign
token_address_of-raise native c raised = refl
token_address_of-raise (stellar a) c raised = refl

abbrev pub with_donation : CampaignData → ℤ → CampaignData
with_donation c amount = raise_campaign c (c.raised_amount +ℤ amount)

-- All that a donation does to the state, for the campaign, the token and the donor's new record.
pub record Donated {T : Type 0} (env : Env T) (donor : Address) (amount : ℤ) (asset : AssetInfo)
    (s s' : State T) : Type 0 where
  pub campaign : CampaignData
  pub token : Address
  pub new_record : DonorRecord
  pub admitted : Admitted env donor amount asset s campaign
  pub resolved : token_address_of asset campaign ≡ some token
  pub not_blocked : unwrap_or (s.blocked_asset token) false ≡ false
  pub applied :
      apply_donation (donor_before s donor asset) amount env.timestamp env.sequence asset
      ≡ some new_record
  pub milestones_after :
      milestones s' ≡ (unlock_from 0 (with_donation campaign amount).raised_amount (milestones s)).0
  pub report_after : s'.cached_report ≡ some (report_value s' (with_donation campaign amount))
  pub state_after : s' ≡ record s {
    campaign_data = some (with_donation campaign amount);
    total_raised = add_to s.total_raised amount;
    asset_raised = update s.asset_raised token (add_to (s.asset_raised token) amount);
    donor_asset_donation =
        update₂ s.donor_asset_donation donor token
          (add_to (s.donor_asset_donation donor token) amount);
    donor_data = update s.donor_data donor (some new_record);
    donation_count = some (unwrap_or s.donation_count 0 + 1);
    unique_donor_count =
        if is_none (s.donor_data donor)
        then some (unwrap_or s.unique_donor_count 0 + 1)
        else s.unique_donor_count;
    reentrancy_lock = none;
    milestones_vec = s'.milestones_vec;
    cached_report = s'.cached_report;
    events = s'.events;
    ttl_calls = s'.ttl_calls;
  }

abbrev campaign_of : {T : Type 0} → State T → Option CampaignData
campaign_of s = s.campaign_data

-- The frames of the four parts, and what they add up to.
module _ {T : Type 0} (env : Env T) (donor : Address) (amount : ℤ) (asset : AssetInfo)
    {s s₁ s₂ s₃ s₄ s' : State T} {c c₂ : CampaignData} {token : Address} {r : DonorRecord}
    (frame₁ : s₁ ≡ record s { reentrancy_lock = some true; ttl_calls = s₁.ttl_calls })
    (raised : c₂ ≡ with_donation c amount)
    (frame₂ : s₂ ≡ record s₁ {
      campaign_data = some c₂;
      total_raised = add_to s₁.total_raised amount;
      ttl_calls = s₂.ttl_calls;
      events = s₂.events;
    })
    (frame₃ : s₃ ≡ record s₂ {
      asset_raised = update s₂.asset_raised token (add_to (s₂.asset_raised token) amount);
      donor_asset_donation =
          update₂ s₂.donor_asset_donation donor token
            (add_to (s₂.donor_asset_donation donor token) amount);
      ttl_calls = s₃.ttl_calls;
    })
    (frame₄ : s₄ ≡ record s₃ {
      donor_data = update s₃.donor_data donor (some r);
      donation_count = some (unwrap_or s₃.donation_count 0 + 1);
      unique_donor_count =
          if is_none (s₃.donor_data donor)
          then some (unwrap_or s₃.unique_donor_count 0 + 1)
          else s₃.unique_donor_count;
      ttl_calls = s₄.ttl_calls;
    }) where
  join_donation :
      Admitted env donor amount asset s c
      → token_address_of asset c₂ ≡ some token
      → unwrap_or (s₂.blocked_asset token) false ≡ false
      → apply_donation (donor_before s₃ donor asset) amount env.timestamp env.sequence asset
        ≡ some r
      → milestones s' ≡ (unlock_from 0 c₂.raised_amount (milestones s₄)).0
      → s'.cached_report ≡ some (report_value s₄ c₂)
      → FinishFrame env donor amount asset s₄ s'
      → Donated env donor amount asset s s'
  unfolding milestones_or_legacy report_value
  join_donation admitted found free applied ms cached frame₅ = record {
    campaign = c;
    token = token;
    new_record = r;
    admitted = admitted;
    resolved =
        sym (token_address_of-raise asset c (c.raised_amount +ℤ amount)) ∙ rw (← raised) found;
    not_blocked = ground arith;
    applied = ground arith;
    milestones_after = ground arith;
    report_after = ground arith;
    state_after = ground arith;
  }

pub donate-Donated :
    {T : Type 0} (env : Env T) (donor : Address) (amount : ℤ) (asset : AssetInfo) (s : State T)
    {s' : State T}
    → donate env donor amount asset s ≡ ok (tt, s')
    → Donated env donor amount asset s s'
unfolding donate
donate-Donated env donor amount asset s h =
    let x₁ = >>=-eq-ok (donate_checks env donor amount asset) _ s h in
    let (admitted, frame₁) = donate_checks-Admitted env donor amount asset s x₁.first in
    let c = x₁.value in
    let x₂ = >>=-eq-ok (donate_raise env c amount) _ x₁.state x₁.then_rest in
    let (raised, frame₂) = donate_raise_lem env donor amount asset c x₁.state x₂.first in
    let x₃ = >>=-eq-ok (donate_accounts env x₂.value donor amount asset) _ x₂.state x₂.then_rest in
    let (token, found, free, frame₃) =
      donate_accounts_lem env donor amount asset x₂.value x₂.state x₃.first in
    let x₄ = >>=-eq-ok (donate_record env donor amount asset) _ x₃.state x₃.then_rest in
    let (r, applied, frame₄) = donate_record_lem env donor amount asset x₃.state x₄.first in
    let (ms, cached, frame₅) =
      donate_finish_lem env donor amount asset x₂.value x₄.state
        (ap campaign_of frame₄ ∙ (ap campaign_of frame₃ ∙ ap campaign_of frame₂)) x₄.then_rest in
    join_donation env donor amount asset frame₁ raised frame₂ frame₃ frame₄ admitted found free
      applied ms cached frame₅
