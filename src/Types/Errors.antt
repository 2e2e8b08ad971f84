-- ===== src/Types/Errors.antt =====
-- `Error` of campaign/src/types.rs and its codes.
use orbit_chain_contracts.Common.{ℕ}

pub data Error : Type 0 where
  already_initialized not_initialized unauthorized campaign_ended campaign_not_active : Error
  asset_not_accepted donation_too_small milestone_not_found milestone_not_unlocked : Error
  previous_milestone_not_released cannot_cancel_with_funds refund_window_closed : Error
  invalid_goal_amount invalid_end_time invalid_milestones insufficient_contract_balance : Error
  overflow invalid_assets invalid_asset_code milestone_mismatch invalid_milestone_count : Error
  invalid_campaign_transition invalid_milestone_transition goal_not_reached : Error
  invalid_storage_value storage_write_error invalid_recipient missing_issuer_address : Error
  zero_release_amount nothing_to_release milestone_released_exceeds_target : Error
  milestone_already_released unreleased_milestones_exist refund_not_permitted : Error
  no_donor_record refund_already_claimed reentrant_call invalid_amount contract_frozen : Error
  asset_blocked : Error

-- The discriminant that the host reports.
unfoldable pub code : Error → ℕ
code already_initialized = 1
code not_initialized = 2
code unauthorized = 3
code campaign_ended = 4
code campaign_not_active = 5
code asset_not_accepted = 6
code donation_too_small = 7
code milestone_not_found = 8
code milestone_not_unlocked = 9
code previous_milestone_not_released = 10
code cannot_cancel_with_funds = 11
code refund_window_closed = 12
code invalid_goal_amount = 13
code invalid_end_time = 14
code invalid_milestones = 15
code insufficient_contract_balance = 16
code overflow = 17
code invalid_assets = 18
code invalid_asset_code = 19
code milestone_mismatch = 20
code invalid_milestone_count = 21
code invalid_campaign_transition = 22
code invalid_milestone_transition = 23
code goal_not_reached = 24
code invalid_storage_value = 25
code storage_write_error = 26
code invalid_recipient = 30
code missing_issuer_address = 31
code zero_release_amount = 32
code nothing_to_release = 33
code milestone_released_exceeds_target = 34
code milestone_already_released = 40
code unreleased_milestones_exist = 41
code refund_not_permitted = 50
code no_donor_record = 51
code refund_already_claimed = 52
code reentrant_call = 60
code invalid_amount = 70
code contract_frozen = 80
code asset_blocked = 90
