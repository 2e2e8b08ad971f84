-- ===== src/Scenario.antt =====
-- A campaign of two milestones in one asset, run by the entry points of campaign/src/lib.rs.
mod Runs
mod Calls
mod Parts
mod Core
mod Batch
mod Tools
mod Signing
use orbit_chain_contracts.Common.{
  ℕ, ◌==◌, ℤ, pos, ◌+ℤ◌, ◌-ℤ◌, ltb_ℤ, ◌≡◌, refl, Bool, true, false, Option, none, some, List, [],
  ◌∷◌, if◌then◌else◌, update₂,
}
use orbit_chain_contracts.Types.{
  Address, AssetInfo, stellar, StellarAsset, CampaignData, MilestoneData, locked,
}
use orbit_chain_contracts.Host.{Env, State, Result, ok, err, ⊤}
use orbit_chain_contracts.Contract
use orbit_chain_contracts.Contract.{
  initialize, initialize_checks, new_campaign, store_milestones, donate, donate_checks,
  donate_raise, donate_accounts, donate_record, donate_finish, refund_load, refund_gate,
  sum_released, refund_assets, authorize_creator,
}
use orbit_chain_contracts.Lifecycle
use orbit_chain_contracts.Release
use orbit_chain_contracts.Release.{release_checks, pay_primary}
use orbit_chain_contracts.MultiRelease
use orbit_chain_contracts.MultiRelease.{multi_checks, release_assets, close_release}
use orbit_chain_contracts.Storage.{
  set_campaign, unlock_milestones_batch, release_lock, milestones_or_legacy, set_donor,
  set_milestone, get_campaign, bump_all_persistent,
}
use orbit_chain_contracts.Validation.{all_codes_present, is_ascending, check_refund_eligibility}
use orbit_chain_contracts.Reports.{refresh_report_cache}

-- What each token contract holds for each address.
abbrev pub Book : Type 0
Book = Address → Address → ℤ

abbrev pub move : Book → Address → Address → Address → ℤ → Option Book
move book token from to amount =
    if ltb_ℤ (book token from) amount
    then none
    else (let paid = update₂ book token from (book token from -ℤ amount) in
        some (update₂ paid token to (paid token to +ℤ amount)))

abbrev pub env_at : ℕ → Env Book
env_at now = record {
  timestamp = now;
  sequence = 5;
  current_contract_address = 1;
  authorized = λ a. true;
  balance = λ book token holder. book token holder;
  transfer = move;
}

-- The contract holds 1000 units of the token 20.
abbrev pub blank : State Book
blank = record {
  campaign_data = none;
  milestone_data = [];
  donor_data = λ d. none;
  total_raised = none;
  asset_raised = λ t. none;
  donor_asset_donation = λ d t. none;
  donation_count = none;
  unique_donor_count = none;
  release_count = none;
  contract_status = none;
  reentrancy_lock = none;
  frozen = none;
  milestones_vec = none;
  blocked_asset = λ t. none;
  cached_report = none;
  ttl_calls = [];
  events = [];
  tokens =
      λ token holder. if (token == 20) then (if holder == 1 then pos 1000 else pos 0) else pos 0;
  wasm_hash = none;
}

abbrev pub usdc : StellarAsset
usdc = record { asset_code = "USDC"; issuer = some 20 }

abbrev pub milestone : ℕ → ℤ → MilestoneData
milestone i target = record {
  index = i;
  target_amount = target;
  released_amount = pos 0;
  description_hash = 0;
  status = locked;
  released_at = none;
  released_at_ledger = none;
  release_tx = none;
  released_to = none;
}

abbrev pub two_milestones : List MilestoneData
two_milestones = milestone 0 (pos 60) ∷ milestone 1 (pos 100) ∷ []

-- The state after a call that returned, and the state before it otherwise.
abbrev pub after : State Book → Result (⊤ × State Book) → State Book
after s (ok (x, s')) = s'
after s (err e) = s

abbrev pub now : Env Book
now = env_at 1000

abbrev pub opened : State Book
opened =
    after blank (Contract.initialize now 2 (pos 100) 5000 (usdc ∷ []) two_milestones (pos 10) blank)

pub initialize_runs :
    Contract.initialize now 2 (pos 100) 5000 (usdc ∷ []) two_milestones (pos 10) blank
    ≡ ok (tt, opened)
unfolding initialize initialize_checks new_campaign set_campaign store_milestones
    refresh_report_cache all_codes_present is_ascending milestones_or_legacy
initialize_runs = refl

abbrev pub donated : State Book
donated = after opened (Contract.donate now 7 (pos 80) (stellar 20) opened)

pub donated_runs : Contract.donate now 7 (pos 80) (stellar 20) opened ≡ ok (tt, donated)
unfolding initialize initialize_checks new_campaign set_campaign store_milestones
    refresh_report_cache all_codes_present is_ascending milestones_or_legacy donate donate_checks
    donate_raise donate_accounts donate_record donate_finish
    orbit_chain_contracts.AssetAuth.is_asset_in_list ◌+ℤ◌
    orbit_chain_contracts.Validation.token_address_of orbit_chain_contracts.Types.apply_donation
    unlock_milestones_batch orbit_chain_contracts.Storage.unlock_from Contract.announce_unlocked
    orbit_chain_contracts.Common.◌*ℤ◌ release_lock
donated_runs = refl
