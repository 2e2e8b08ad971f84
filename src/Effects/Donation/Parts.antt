-- ===== src/Effects/Donation/Parts.antt =====
-- The four parts of `donate` of campaign/src/lib.rs, each with what it checks and what it changes.
use orbit_chain_contracts.Common.{
  ℕ, ◌+◌, ℤ, pos, ◌+ℤ◌, ◌≡◌, inl, inr, true, false, Option, none, some, List, [], ◌∷◌, arith,
  unwrap_or, is_none, update, update₂, Option-cases, if◌then◌else◌,
}
use orbit_chain_contracts.Types.{
  Address, AssetInfo, CampaignData, DonorRecord, accepts_donations, apply_donation, new_for,
}
use orbit_chain_contracts.Host.{Env, Event, State, ok}
use orbit_chain_contracts.Host.Inversion.{>>=-eq-ok}
use orbit_chain_contracts.Storage.{
  milestones_or_legacy, milestones, unlock_from, unlock_milestones_batch, release_lock,
}
use orbit_chain_contracts.AssetAuth.{is_asset_in_list}
use orbit_chain_contracts.Validation.{token_address_of, resolve_asset_code}
use orbit_chain_contracts.Reports.{refresh_report_cache}
use orbit_chain_contracts.Contract.{
  too_small, raise_campaign, donate_checks, donate_raise, donate_accounts, donate_record,
  announce_unlocked, donate_finish,
}
use orbit_chain_contracts.MilestoneStore.Unlock.{unlock_milestones_batch_ok}
use orbit_chain_contracts.Effects.Report.{report_value, refresh_report_cache_lem}

-- The tests of a donation, on the state before it and the campaign stored there.
pub record Admitted {T : Type 0} (env : Env T) (donor : Address) (amount : ℤ) (asset : AssetInfo)
    (s : State T) (c : CampaignData) : Type 0 where
  pub stored : s.campaign_data ≡ some c
  pub unlocked : s.reentrancy_lock ≡ none
  pub accepted : is_asset_in_list asset c ≡ true
  pub authorized : env.authorized donor ≡ true
  pub not_frozen : unwrap_or s.frozen false ≡ false
  pub open_status : accepts_donations c.status ≡ true
  pub large_enough : too_small c amount ≡ false

abbrev pub donor_before : {T : Type 0} → State T → Address → AssetInfo → DonorRecord
donor_before s donor asset = unwrap_or (s.donor_data donor) (new_for donor asset)

abbrev pub add_to : Option ℤ → ℤ → Option ℤ
add_to old amount = some (unwrap_or old (pos 0) +ℤ amount)

module _ {T : Type 0} (env : Env T) (donor : Address) (amount : ℤ) (asset : AssetInfo) where
  pub donate_checks-Admitted :
      (s : State T) {c : CampaignData} {s' : State T}
      → donate_checks env donor amount asset s ≡ ok (c, s')
      → Admitted env donor amount asset s c
        × (s' ≡ record s { reentrancy_lock = some true; ttl_calls = s'.ttl_calls })
  unfolding donate_checks
  donate_checks-Admitted s h = ground arith

  pub donate_raise_lem :
      (c : CampaignData) (s : State T) {c' : CampaignData} {s' : State T}
      → donate_raise env c amount s ≡ ok (c', s')
      → (c' ≡ raise_campaign c (c.raised_amount +ℤ amount))
        × (s' ≡ record s {
          campaign_data = some c';
          total_raised = add_to s.total_raised amount;
          ttl_calls = s'.ttl_calls;
          events = s'.events;
        })
  unfolding donate_raise
  donate_raise_lem c s h = ground arith

  pub donate_accounts_lem :
      (c : CampaignData) (s : State T) {s' : State T}
      → donate_accounts env c donor amount asset s ≡ ok (tt, s')
      → (token : Address) × (token_address_of asset c ≡ some token)
        × (unwrap_or (s.blocked_asset token) false ≡ false)
        × (s' ≡ record s {
          asset_raised = update s.asset_raised token (add_to (s.asset_raised token) amount);
          donor_asset_donation =
              update₂ s.donor_asset_donation donor token
                (add_to (s.donor_asset_donation donor token) amount);
          ttl_calls = s'.ttl_calls;
        })
  unfolding donate_accounts
  donate_accounts_lem c s h = ground arith

  pub donate_record_lem :
      (s : State T) {s' : State T}
      → donate_record env donor amount asset s ≡ ok (tt, s')
      → (r : DonorRecord) × (apply_donation
            (donor_before s donor asset)
            amount
            env.timestamp
            env.sequence
            asset
          ≡ some r)
        × (s' ≡ record s {
          donor_data = update s.donor_data donor (some r);
          donation_count = some (unwrap_or s.donation_count 0 + 1);
          unique_donor_count =
              if is_none (s.donor_data donor)
              then some (unwrap_or s.unique_donor_count 0 + 1)
              else s.unique_donor_count;
          ttl_calls = s'.ttl_calls;
        })
  unfolding donate_record
  donate_record_lem s h =
      elim (Option-cases
        (apply_donation (donor_before s donor asset) amount env.timestamp env.sequence asset)) [
          | inl e ↦ absurd (ground arith)
          | inr (r, e) ↦ (r, e, ground arith)
        ]

  -- What the last part of a donation leaves alone.
  abbrev pub FinishFrame : State T → State T → Type 0
  FinishFrame s s' = s' ≡ record s {
    milestones_vec = s'.milestones_vec;
    events = s'.events;
    cached_report = s'.cached_report;
    reentrancy_lock = none;
    ttl_calls = s'.ttl_calls;
  }

  announce_unlocked_lem :
      (raised : ℤ) (l : List (ℕ × ℤ)) (s : State T) {s' : State T}
      → announce_unlocked env raised l s ≡ ok (tt, s')
      → s' ≡ record s { events = s'.events }
  unfolding announce_unlocked
  announce_unlocked_lem raised [] s h = ground arith
  announce_unlocked_lem raised ((i, t) ∷ l) s {s'} h =
      let s₁ : State T = record s {
        events = Event.milestone_unlocked env.current_contract_address i t raised ∷ s.events;
      } in
      announce_unlocked_lem raised l s₁ h

  abbrev received : CampaignData → Event
  received c =
      Event.donation_received env.current_contract_address donor amount (resolve_asset_code asset c)
        c.raised_amount env.timestamp

  pub donate_finish_lem :
      (c : CampaignData) (s : State T) {s' : State T}
      → s.campaign_data ≡ some c
      → donate_finish env c donor amount asset s ≡ ok (tt, s')
      → (milestones s' ≡ (unlock_from 0 c.raised_amount (milestones s)).0)
        × (s'.cached_report ≡ some (report_value s c))
        × FinishFrame s s'
  unfolding donate_finish release_lock milestones_or_legacy report_value
  donate_finish_lem c s {s'} e h =
      let x₁ = >>=-eq-ok (unlock_milestones_batch c.raised_amount) _ s h in
      let (ms, frame₁) = unlock_milestones_batch_ok c.raised_amount s x₁.first in
      let x₂ = >>=-eq-ok (announce_unlocked env c.raised_amount x₁.value) _ x₁.state x₁.then_rest in
      let frame₂ = announce_unlocked_lem c.raised_amount x₁.value x₁.state x₂.first in
      let s₃ : State T = record (x₂.state) { events = received c ∷ x₂.state.events } in
      let x₃ = >>=-eq-ok refresh_report_cache _ s₃ x₂.then_rest in
      let (cached, frame₃) = refresh_report_cache_lem s₃ c (ground arith) x₃.first in
      let last = x₃.then_rest in (ground arith, ground arith, ground arith)
