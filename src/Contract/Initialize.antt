-- ===== src/Contract/Initialize.antt =====
-- `initialize` of campaign/src/lib.rs.
use orbit_chain_contracts.Common.{
  ℕ, suc, ℤ, pos, none, List, [], ◌∷◌, length, is_some, is_empty, leb, ltb, leb_ℤ, ◌==◌, ◌||◌,
}
use orbit_chain_contracts.Types.{
  Address, StellarAsset, CampaignData, MilestoneData, active, max_milestones, already_initialized,
  invalid_goal_amount, invalid_end_time, invalid_assets, invalid_milestone_count,
}
use orbit_chain_contracts.Host.{
  Env, Event, M, ⊤, pure, panic_if, require_auth, publish, ◌>>=◌, ◌>>◌,
}
use orbit_chain_contracts.Storage.{get_campaign, set_campaign, set_milestone}
use orbit_chain_contracts.Validation.{validate_assets, validate_milestones}
use orbit_chain_contracts.Reports.{refresh_report_cache}

module _ {T : Type 0} where
  -- The loop that stores the milestones, from the index `i` on.
  unfoldable pub store_milestones : ℕ → List MilestoneData → M T ⊤
  unfolding set_milestone
  store_milestones i [] = pure tt
  store_milestones i (m ∷ ms) = do set_milestone i m; store_milestones (suc i) ms

module _ {T : Type 0} (env : Env T) where
  unfoldable pub new_campaign :
      Address → ℤ → ℕ → List StellarAsset → List MilestoneData → ℤ → CampaignData
  new_campaign creator goal end_time assets ms min_donation = record {
    creator = creator;
    goal_amount = goal;
    raised_amount = pos 0;
    end_time = end_time;
    status = active;
    accepted_assets = assets;
    milestone_count = length ms;
    min_donation_amount = min_donation;
    created_at_ledger = env.sequence;
    created_at_time = env.timestamp;
    concluded_at_ledger = none;
  }

  -- The checks, in the order of the code.
  unfoldable pub initialize_checks :
      Address → ℤ → ℕ → List StellarAsset → List MilestoneData → M T ⊤
  unfolding get_campaign validate_assets validate_milestones
  initialize_checks creator goal end_time assets ms = do
    require_auth env creator
    found ← get_campaign
    panic_if (is_some found) already_initialized
    panic_if (leb_ℤ goal (pos 0)) invalid_goal_amount
    panic_if (leb end_time env.timestamp) invalid_end_time
    panic_if (is_empty assets) invalid_assets
    validate_assets assets
    panic_if (length ms == 0 || ltb max_milestones (length ms)) invalid_milestone_count
    validate_milestones ms goal

  unfoldable pub initialize : Address → ℤ → ℕ → List StellarAsset → List MilestoneData → ℤ → M T ⊤
  initialize creator goal end_time assets ms min_donation = do
    initialize_checks creator goal end_time assets ms
    set_campaign (new_campaign creator goal end_time assets ms min_donation)
    store_milestones 0 ms
    publish (
        Event.initialized (record {
          creator = creator;
          goal_amount = goal;
          end_time = end_time;
          asset_count = length assets;
          milestone_count = length ms;
          created_at_ledger = env.sequence;
        }))
    refresh_report_cache
