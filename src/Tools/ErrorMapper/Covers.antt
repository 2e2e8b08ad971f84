-- ===== src/Tools/ErrorMapper/Covers.antt =====
-- The messages of crates/tools/src/error_mapper.rs and the errors of campaign/src/types.rs.
use orbit_chain_contracts.Common.{ℕ, String, ◌≡◌, refl, Option, none, some}
use orbit_chain_contracts.Types.{Error, code}
use orbit_chain_contracts.Tools.ErrorMapper.{ErrorEntry, load_builtin, get, insert_all, insert}

-- The name of the variant in campaign/src/types.rs.
unfoldable pub variant_name : Error → String
variant_name Error.already_initialized = "AlreadyInitialized"
variant_name Error.not_initialized = "NotInitialized"
variant_name Error.unauthorized = "Unauthorized"
variant_name Error.campaign_ended = "CampaignEnded"
variant_name Error.campaign_not_active = "CampaignNotActive"
variant_name Error.asset_not_accepted = "AssetNotAccepted"
variant_name Error.donation_too_small = "DonationTooSmall"
variant_name Error.milestone_not_found = "MilestoneNotFound"
variant_name Error.milestone_not_unlocked = "MilestoneNotUnlocked"
variant_name Error.previous_milestone_not_released = "PreviousMilestoneNotReleased"
variant_name Error.cannot_cancel_with_funds = "CannotCancelWithFunds"
variant_name Error.refund_window_closed = "RefundWindowClosed"
variant_name Error.invalid_goal_amount = "InvalidGoalAmount"
variant_name Error.invalid_end_time = "InvalidEndTime"
variant_name Error.invalid_milestones = "InvalidMilestones"
variant_name Error.insufficient_contract_balance = "InsufficientContractBalance"
variant_name Error.overflow = "Overflow"
variant_name Error.invalid_assets = "InvalidAssets"
variant_name Error.invalid_asset_code = "InvalidAssetCode"
variant_name Error.milestone_mismatch = "MilestoneMismatch"
variant_name Error.invalid_milestone_count = "InvalidMilestoneCount"
variant_name Error.invalid_campaign_transition = "InvalidCampaignTransition"
variant_name Error.invalid_milestone_transition = "InvalidMilestoneTransition"
variant_name Error.goal_not_reached = "GoalNotReached"
variant_name Error.invalid_storage_value = "InvalidStorageValue"
variant_name Error.storage_write_error = "StorageWriteError"
variant_name Error.invalid_recipient = "InvalidRecipient"
variant_name Error.missing_issuer_address = "MissingIssuerAddress"
variant_name Error.zero_release_amount = "ZeroReleaseAmount"
variant_name Error.nothing_to_release = "NothingToRelease"
variant_name Error.milestone_released_exceeds_target = "MilestoneReleasedExceedsTarget"
variant_name Error.milestone_already_released = "MilestoneAlreadyReleased"
variant_name Error.unreleased_milestones_exist = "UnreleasedMilestonesExist"
variant_name Error.refund_not_permitted = "RefundNotPermitted"
variant_name Error.no_donor_record = "NoDonorRecord"
variant_name Error.refund_already_claimed = "RefundAlreadyClaimed"
variant_name Error.reentrant_call = "ReentrantCall"
variant_name Error.invalid_amount = "InvalidAmount"
variant_name Error.contract_frozen = "ContractFrozen"
variant_name Error.asset_blocked = "AssetBlocked"

-- The name that the tool shows for a code, and the code that it shows with it.
abbrev pub shown : Option ErrorEntry → Option (String × ℕ)
shown none = none
shown (some e) = some (e.name, e.code)

abbrev pub expected : Error → Option (String × ℕ)
expected Error.asset_blocked = none
expected e = some (variant_name e, code e)

-- For each error of the campaign contract but one, the table has an entry under the error's code, with
-- the name of the variant and that code; for `AssetBlocked` (code 90) it has none, so the tool calls it
-- unknown.
pub get-code : (e : Error) → shown (get (code e) load_builtin) ≡ expected e
unfolding get load_builtin code variant_name insert_all insert
get-code Error.already_initialized = refl
get-code Error.not_initialized = refl
get-code Error.unauthorized = refl
get-code Error.campaign_ended = refl
get-code Error.campaign_not_active = refl
get-code Error.asset_not_accepted = refl
get-code Error.donation_too_small = refl
get-code Error.milestone_not_found = refl
get-code Error.milestone_not_unlocked = refl
get-code Error.previous_milestone_not_released = refl
get-code Error.cannot_cancel_with_funds = refl
get-code Error.refund_window_closed = refl
get-code Error.invalid_goal_amount = refl
get-code Error.invalid_end_time = refl
get-code Error.invalid_milestones = refl
get-code Error.insufficient_contract_balance = refl
get-code Error.overflow = refl
get-code Error.invalid_assets = refl
get-code Error.invalid_asset_code = refl
get-code Error.milestone_mismatch = refl
get-code Error.invalid_milestone_count = refl
get-code Error.invalid_campaign_transition = refl
get-code Error.invalid_milestone_transition = refl
get-code Error.goal_not_reached = refl
get-code Error.invalid_storage_value = refl
get-code Error.storage_write_error = refl
get-code Error.invalid_recipient = refl
get-code Error.missing_issuer_address = refl
get-code Error.zero_release_amount = refl
get-code Error.nothing_to_release = refl
get-code Error.milestone_released_exceeds_target = refl
get-code Error.milestone_already_released = refl
get-code Error.unreleased_milestones_exist = refl
get-code Error.refund_not_permitted = refl
get-code Error.no_donor_record = refl
get-code Error.refund_already_claimed = refl
get-code Error.reentrant_call = refl
get-code Error.invalid_amount = refl
get-code Error.contract_frozen = refl
get-code Error.asset_blocked = refl
