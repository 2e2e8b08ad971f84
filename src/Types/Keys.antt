-- ===== src/Types/Keys.antt =====
-- `DataKey` of campaign/src/types.rs.
use orbit_chain_contracts.Common.{ℕ}
use orbit_chain_contracts.Types.Assets.{Address}

pub data DataKey : Type 0 where
  campaign_data total_raised donation_count unique_donor_count release_count : DataKey
  contract_status reentrancy_lock frozen milestones_vec cached_report : DataKey
  milestone_data : ℕ → DataKey
  donor_data asset_raised blocked_asset : Address → DataKey
  donor_asset_donation : Address → Address → DataKey
