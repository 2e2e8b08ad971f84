-- ===== src/History/Calls.antt =====
-- Each call of an entry point of campaign/src/lib.rs keeps what a history relies on.
mod Donors
mod Releases
use orbit_chain_contracts.Common.{
  ℕ, ◌+◌, ℤ, ◌-ℤ◌, ◌≡◌, ◌≢◌, refl, sym, ap, ◌∙◌, subst, Bool, true, false, Option, none, some, List,
  arith, unwrap_or, update, Bool-cases, inl, inr, ◌==◌,
}
use orbit_chain_contracts.Types.{
  Address, CampaignData, CampaignStatus, DonorRecord, MilestoneData, ended, cancelled,
  apply_donation, new_for, AssetInfo, is_released, StellarAsset,
}
use orbit_chain_contracts.Host.{Env, State, ok}
use orbit_chain_contracts.Storage.{milestone_at}
use orbit_chain_contracts.Validation.{is_released_entry}
use orbit_chain_contracts.Contract.{raise_campaign, too_small}
use orbit_chain_contracts.Effects.Report.{report_value}
use orbit_chain_contracts.Effects.Donation.{Donated, with_donation}
use orbit_chain_contracts.Effects.Lifecycle.{concluded, with_end_time}
use orbit_chain_contracts.MilestoneStore.Kept.{milestone_at-unlock}
use orbit_chain_contracts.Contract
use orbit_chain_contracts.Reports.{refresh_report_cache}
use orbit_chain_contracts.Release
use orbit_chain_contracts.MultiRelease
use orbit_chain_contracts.Effects.Initialize.{initialize-Initialized}
use orbit_chain_contracts.Effects.Donation.{donate-Donated}
use orbit_chain_contracts.Effects.Refund.{Refunded, claim_refund-Refunded, claimed}
use orbit_chain_contracts.Effects.Release.{release_milestone-Released}
use orbit_chain_contracts.Effects.MultiRelease.{release_milestone_multi_asset-MultiReleased}
use orbit_chain_contracts.Effects.Lifecycle.{
  Concluded, Extended, end_campaign-Concluded, cancel_campaign-Concluded, extend_deadline-Extended,
}
use orbit_chain_contracts.Effects.Admin.{
  AdminCall, ThroughCreator, upgrade-AdminCall, freeze-AdminCall, unfreeze-AdminCall,
  block_asset-AdminCall, unblock_asset-AdminCall, bump_storage_lem,
  release_milestone-ThroughCreator, release_multi-ThroughCreator,
}
use orbit_chain_contracts.Effects.Report.{refresh_report_cache_lem}
use orbit_chain_contracts.History.Step.{Step, Reach}
use orbit_chain_contracts.History.Keeps.{
  Evolves, Keeps, Evolves-refl, raise-Evolves, conclude-Evolves, quiet-Keeps, Becomes-Keeps,
  Keeps-trans, Keeps-refl, has_claimed,
}
use orbit_chain_contracts.History.Calls.Donors.{
  donate-Keeps, refund-Keeps, Concluded-Keeps, Extended-Keeps, not_absent,
}
use orbit_chain_contracts.History.Calls.Releases.{single-Keeps, multi-Keeps}

module _ {T : Type 0} where
  admin-Keeps :
      (env : Env T) (c : CampaignData) (s after s' : State T)
      → s.campaign_data ≡ some c
      → after ≡ record s {
        frozen = after.frozen;
        blocked_asset = after.blocked_asset;
        wasm_hash = after.wasm_hash;
      }
      → AdminCall env after s s'
      → Keeps c s s'
  admin-Keeps env c s after s' h f x = let g = x.state_after in quiet-Keeps c s s' h (ground arith)

  initialize_again :
      (env : Env T) (creator : Address) (goal : ℤ) (end_time : ℕ) (assets : List StellarAsset)
      (ms : List MilestoneData) (min_donation : ℤ) (c : CampaignData) (s : State T) {s' : State T}
      → s.campaign_data ≡ some c
      → Contract.initialize env creator goal end_time assets ms min_donation s ≡ ok (tt, s')
      → ⊥
  initialize_again env creator goal end_time assets ms min_donation c s {s'} h k =
      not_absent s.campaign_data c h
        (initialize-Initialized env creator goal end_time assets ms min_donation s {s' = s'}
          k).accepted.is_new

  -- Every call of an entry point on a stored campaign.
  pub step-Keeps :
      (c : CampaignData) (s s' : State T) → s.campaign_data ≡ some c → Step s s' → Keeps c s s'
  step-Keeps c s s' h (Step.view f) = quiet-Keeps c s s' h (ground arith)
  step-Keeps c s s' h (Step.initialize env creator goal end_time assets ms min_donation k) =
      absurd (initialize_again env creator goal end_time assets ms min_donation c s h k)
  step-Keeps c s s' h (Step.donate env donor amount asset k) =
      donate-Keeps env donor amount asset c s s' h (donate-Donated env donor amount asset s k)
  step-Keeps c s s' h (Step.claim_refund env donor k) =
      refund-Keeps env donor c s s' h (claim_refund-Refunded env donor s k)
  step-Keeps c s s' h (Step.end_campaign env k) =
      Concluded-Keeps env ended c s s' h (end_campaign-Concluded env s k)
  step-Keeps c s s' h (Step.cancel_campaign env k) =
      Concluded-Keeps env cancelled c s s' h (cancel_campaign-Concluded env s k)
  step-Keeps c s s' h (Step.extend_deadline env t k) =
      Extended-Keeps env t c s s' h (extend_deadline-Extended env t s k)
  step-Keeps c s s' h (Step.release_milestone env i recipient k) =
      single-Keeps env i recipient c s s' h (release_milestone-ThroughCreator env i recipient s k)
  step-Keeps c s s' h (Step.release_milestone_multi_asset env i recipient k) =
      multi-Keeps env i recipient c s s' h (release_multi-ThroughCreator env i recipient s k)
  step-Keeps c s s' h (Step.upgrade env hash k) =
      admin-Keeps env c s (record s { wasm_hash = some hash }) s' h refl
        (upgrade-AdminCall env hash s k).1
  step-Keeps c s s' h (Step.freeze env k) =
      admin-Keeps env c s (record s { frozen = some true }) s' h refl (freeze-AdminCall env s k)
  step-Keeps c s s' h (Step.unfreeze env k) =
      admin-Keeps env c s (record s { frozen = some false }) s' h refl (unfreeze-AdminCall env s k)
  step-Keeps c s s' h (Step.block_asset env asset k) =
      admin-Keeps env c s (record s { blocked_asset = update s.blocked_asset asset (some true) }) s'
        h refl (block_asset-AdminCall env asset s k)
  step-Keeps c s s' h (Step.unblock_asset env asset k) =
      admin-Keeps env c s (record s { blocked_asset = update s.blocked_asset asset (some false) })
        s' h refl (unblock_asset-AdminCall env asset s k)
  step-Keeps c s s' h (Step.bump_storage k) =
      let f = bump_storage_lem s k in quiet-Keeps c s s' h (ground arith)

  pub reach-Keeps :
      (c : CampaignData) (s u : State T) → s.campaign_data ≡ some c → Reach s u → Keeps c s u
  reach-Keeps c s u h Reach.here = Keeps-refl c s h
  reach-Keeps c s u h (Reach.next {t} past call) =
      let x = reach-Keeps c s t h past in
      Keeps-trans c s t u x (step-Keeps x.later t u x.stored call)
