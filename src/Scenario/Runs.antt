-- ===== src/Scenario/Runs.antt =====
-- The donated campaign, run on by the other entry points of campaign/src/lib.rs.
use orbit_chain_contracts.Common.{
  ℕ, ◌==◌, ℤ, pos, ◌+ℤ◌, ◌-ℤ◌, ltb_ℤ, ◌≡◌, refl, Bool, true, false, Option, none, some, List, [],
  ◌∷◌, if◌then◌else◌, update₂,
}
use orbit_chain_contracts.Types.{
  Address, AssetInfo, stellar, StellarAsset, CampaignData, MilestoneData, locked,
}
use orbit_chain_contracts.Host.{State, ok}
use orbit_chain_contracts.Contract
use orbit_chain_contracts.Contract.{
  initialize, initialize_checks, new_campaign, store_milestones, donate, donate_checks,
  donate_raise, donate_accounts, donate_record, donate_finish, refund_load, refund_gate,
  sum_released, refund_assets, authorize_creator,
}
use orbit_chain_contracts.Lifecycle
use orbit_chain_contracts.Release
use orbit_chain_contracts.Release.{release_checks, pay_primary}
use orbit_chain_contracts.MultiRelease
use orbit_chain_contracts.MultiRelease.{multi_checks, release_assets, close_release}
use orbit_chain_contracts.Storage.{
  set_campaign, unlock_milestones_batch, release_lock, milestones_or_legacy, set_donor,
  set_milestone, get_campaign, bump_all_persistent,
}
use orbit_chain_contracts.Validation.{all_codes_present, is_ascending, check_refund_eligibility}
use orbit_chain_contracts.Reports.{refresh_report_cache}
use orbit_chain_contracts.Scenario.{Book, after, now, donated}

abbrev pub cancelled_after : State Book
cancelled_after = after donated (Contract.cancel_campaign now donated)

pub cancelled_after_runs : Contract.cancel_campaign now donated ≡ ok (tt, cancelled_after)
unfolding initialize initialize_checks new_campaign set_campaign store_milestones
    refresh_report_cache all_codes_present is_ascending milestones_or_legacy donate donate_checks
    donate_raise donate_accounts donate_record donate_finish Contract.cancel_campaign
    Lifecycle.cancel_campaign orbit_chain_contracts.AssetAuth.is_asset_in_list ◌+ℤ◌
    orbit_chain_contracts.Validation.token_address_of orbit_chain_contracts.Types.apply_donation
    unlock_milestones_batch orbit_chain_contracts.Storage.unlock_from Contract.announce_unlocked
    orbit_chain_contracts.Common.◌*ℤ◌ release_lock
cancelled_after_runs = refl

abbrev pub refunded : State Book
refunded = after cancelled_after (Contract.claim_refund now 7 cancelled_after)

pub refunded_runs : Contract.claim_refund now 7 cancelled_after ≡ ok (tt, refunded)
unfolding initialize initialize_checks new_campaign set_campaign store_milestones
    refresh_report_cache all_codes_present is_ascending milestones_or_legacy donate donate_checks
    donate_raise donate_accounts donate_record donate_finish Contract.cancel_campaign
    Lifecycle.cancel_campaign Contract.claim_refund refund_load refund_gate sum_released
    refund_assets check_refund_eligibility set_donor
    orbit_chain_contracts.AssetAuth.is_asset_in_list ◌+ℤ◌
    orbit_chain_contracts.Validation.token_address_of orbit_chain_contracts.Types.apply_donation
    unlock_milestones_batch orbit_chain_contracts.Storage.unlock_from Contract.announce_unlocked
    orbit_chain_contracts.Common.◌*ℤ◌ release_lock
    orbit_chain_contracts.Reports.calculate_refund_amount ◌-ℤ◌
    orbit_chain_contracts.Storage.entry_at Contract.pay_if_positive
    orbit_chain_contracts.Reports.refund_share
refunded_runs = refl

abbrev pub ended_after : State Book
ended_after = after donated (Contract.end_campaign now donated)

pub ended_after_runs : Contract.end_campaign now donated ≡ ok (tt, ended_after)
unfolding initialize initialize_checks new_campaign set_campaign store_milestones
    refresh_report_cache all_codes_present is_ascending milestones_or_legacy donate donate_checks
    donate_raise donate_accounts donate_record donate_finish Contract.end_campaign
    Lifecycle.end_campaign orbit_chain_contracts.AssetAuth.is_asset_in_list ◌+ℤ◌
    orbit_chain_contracts.Validation.token_address_of orbit_chain_contracts.Types.apply_donation
    unlock_milestones_batch orbit_chain_contracts.Storage.unlock_from Contract.announce_unlocked
    orbit_chain_contracts.Common.◌*ℤ◌ release_lock
ended_after_runs = refl

abbrev pub extended : State Book
extended = after donated (Contract.extend_deadline now 9000 donated)

pub extended_runs : Contract.extend_deadline now 9000 donated ≡ ok (tt, extended)
unfolding initialize initialize_checks new_campaign set_campaign store_milestones
    refresh_report_cache all_codes_present is_ascending milestones_or_legacy donate donate_checks
    donate_raise donate_accounts donate_record donate_finish Contract.extend_deadline
    Lifecycle.extend_deadline orbit_chain_contracts.AssetAuth.is_asset_in_list ◌+ℤ◌
    orbit_chain_contracts.Validation.token_address_of orbit_chain_contracts.Types.apply_donation
    unlock_milestones_batch orbit_chain_contracts.Storage.unlock_from Contract.announce_unlocked
    orbit_chain_contracts.Common.◌*ℤ◌ release_lock
extended_runs = refl

abbrev pub released_first : State Book
released_first = after donated (Release.release_milestone now 0 9 donated)

pub released_first_runs : Release.release_milestone now 0 9 donated ≡ ok (tt, released_first)
unfolding initialize initialize_checks new_campaign set_campaign store_milestones
    refresh_report_cache all_codes_present is_ascending milestones_or_legacy donate donate_checks
    donate_raise donate_accounts donate_record donate_finish Release.release_milestone
    release_checks pay_primary set_milestone orbit_chain_contracts.AssetAuth.is_asset_in_list ◌+ℤ◌
    orbit_chain_contracts.Validation.token_address_of orbit_chain_contracts.Types.apply_donation
    unlock_milestones_batch orbit_chain_contracts.Storage.unlock_from Contract.announce_unlocked
    orbit_chain_contracts.Common.◌*ℤ◌ release_lock orbit_chain_contracts.Storage.entry_at ◌-ℤ◌
    orbit_chain_contracts.Storage.storage_increment_release_count
released_first_runs = refl

abbrev pub released_in_all : State Book
released_in_all = after donated (MultiRelease.release_milestone_multi_asset now 0 9 donated)

pub released_in_all_runs :
    MultiRelease.release_milestone_multi_asset now 0 9 donated ≡ ok (tt, released_in_all)
unfolding initialize initialize_checks new_campaign set_campaign store_milestones
    refresh_report_cache all_codes_present is_ascending milestones_or_legacy donate donate_checks
    donate_raise donate_accounts donate_record donate_finish
    MultiRelease.release_milestone_multi_asset multi_checks set_milestone release_assets
    close_release orbit_chain_contracts.AssetAuth.is_asset_in_list ◌+ℤ◌
    orbit_chain_contracts.Validation.token_address_of orbit_chain_contracts.Types.apply_donation
    unlock_milestones_batch orbit_chain_contracts.Storage.unlock_from Contract.announce_unlocked
    orbit_chain_contracts.Common.◌*ℤ◌ orbit_chain_contracts.Storage.entry_at ◌-ℤ◌
released_in_all_runs = refl

abbrev pub released_by_creator : State Book
released_by_creator = after donated (Contract.release_milestone now 0 9 donated)

pub released_by_creator_runs :
    Contract.release_milestone now 0 9 donated ≡ ok (tt, released_by_creator)
unfolding initialize initialize_checks new_campaign set_campaign store_milestones
    refresh_report_cache all_codes_present is_ascending milestones_or_legacy donate donate_checks
    donate_raise donate_accounts donate_record donate_finish Release.release_milestone
    release_checks pay_primary set_milestone Contract.release_milestone authorize_creator
    orbit_chain_contracts.AssetAuth.is_asset_in_list ◌+ℤ◌
    orbit_chain_contracts.Validation.token_address_of orbit_chain_contracts.Types.apply_donation
    unlock_milestones_batch orbit_chain_contracts.Storage.unlock_from Contract.announce_unlocked
    orbit_chain_contracts.Common.◌*ℤ◌ release_lock orbit_chain_contracts.Storage.entry_at ◌-ℤ◌
    orbit_chain_contracts.Storage.storage_increment_release_count
released_by_creator_runs = refl

abbrev pub frozen_after : State Book
frozen_after = after donated (Contract.freeze now donated)

pub frozen_after_runs : Contract.freeze now donated ≡ ok (tt, frozen_after)
unfolding initialize initialize_checks new_campaign set_campaign store_milestones
    refresh_report_cache all_codes_present is_ascending milestones_or_legacy donate donate_checks
    donate_raise donate_accounts donate_record donate_finish Contract.freeze
    orbit_chain_contracts.AssetAuth.is_asset_in_list ◌+ℤ◌
    orbit_chain_contracts.Validation.token_address_of orbit_chain_contracts.Types.apply_donation
    unlock_milestones_batch orbit_chain_contracts.Storage.unlock_from Contract.announce_unlocked
    orbit_chain_contracts.Common.◌*ℤ◌ release_lock
frozen_after_runs = refl

abbrev pub upgraded : State Book
upgraded = after donated (Contract.upgrade now 77 donated)

pub upgraded_runs : Contract.upgrade now 77 donated ≡ ok (tt, upgraded)
unfolding initialize initialize_checks new_campaign set_campaign store_milestones
    refresh_report_cache all_codes_present is_ascending milestones_or_legacy donate donate_checks
    donate_raise donate_accounts donate_record donate_finish Contract.upgrade
    orbit_chain_contracts.AssetAuth.is_asset_in_list ◌+ℤ◌
    orbit_chain_contracts.Validation.token_address_of orbit_chain_contracts.Types.apply_donation
    unlock_milestones_batch orbit_chain_contracts.Storage.unlock_from Contract.announce_unlocked
    orbit_chain_contracts.Common.◌*ℤ◌ release_lock
upgraded_runs = refl

abbrev pub bumped : State Book
bumped = after donated (Contract.bump_storage donated)

pub bumped_runs : Contract.bump_storage donated ≡ ok (tt, bumped)
unfolding initialize initialize_checks new_campaign set_campaign store_milestones
    refresh_report_cache all_codes_present is_ascending milestones_or_legacy donate donate_checks
    donate_raise donate_accounts donate_record donate_finish Contract.bump_storage get_campaign
    bump_all_persistent orbit_chain_contracts.AssetAuth.is_asset_in_list ◌+ℤ◌
    orbit_chain_contracts.Validation.token_address_of orbit_chain_contracts.Types.apply_donation
    unlock_milestones_batch orbit_chain_contracts.Storage.unlock_from Contract.announce_unlocked
    orbit_chain_contracts.Common.◌*ℤ◌ release_lock
bumped_runs = refl
