-- ===== src/Types/Records.antt =====
-- `CampaignData`, `MilestoneData` and `DonorRecord` of campaign/src/types.rs. Numbers marked i128
-- are signed.
use orbit_chain_contracts.Common.{
  ℕ, ℤ, pos, Bool, false, Option, none, some, List, leb_ℤ, max_ℤ, checked_sub, checked_add,
  checked_add_u32, unwrap_or,
}
use orbit_chain_contracts.Types.Status.{CampaignStatus, MilestoneStatus, accepts_donations}
use orbit_chain_contracts.Types.Assets.{Address, Hash, StellarAsset, AssetInfo}

pub record CampaignData : Type 0 where
  pub creator : Address
  pub goal_amount : ℤ  -- i128
  pub raised_amount : ℤ  -- i128
  pub end_time : ℕ  -- u64
  pub status : CampaignStatus
  pub accepted_assets : List StellarAsset
  pub milestone_count : ℕ  -- u32
  pub min_donation_amount : ℤ  -- i128
  pub created_at_ledger : ℕ  -- u32
  pub created_at_time : ℕ  -- u64
  pub concluded_at_ledger : Option ℕ

abbrev pub goal_is_reached : CampaignData → Bool
goal_is_reached c = leb_ℤ c.goal_amount c.raised_amount

-- `CampaignData::remaining`
unfoldable pub remaining : CampaignData → ℤ
unfolding checked_sub
remaining c = max_ℤ (unwrap_or (checked_sub c.goal_amount c.raised_amount) (pos 0)) (pos 0)

abbrev pub is_accepting_donations : CampaignData → Bool
is_accepting_donations c = accepts_donations c.status

abbrev pub max_milestones : ℕ
max_milestones = 5

pub record MilestoneData : Type 0 where
  pub index : ℕ  -- u32
  pub target_amount : ℤ  -- i128
  pub released_amount : ℤ  -- i128
  pub description_hash : Hash
  pub status : MilestoneStatus
  pub released_at : Option ℕ
  pub released_at_ledger : Option ℕ
  pub release_tx : Option Hash
  pub released_to : Option Address

-- `MilestoneData::pending_release`
unfoldable pub pending_release : MilestoneData → ℤ
unfolding checked_sub
pending_release m =
    max_ℤ (unwrap_or (checked_sub m.target_amount m.released_amount) (pos 0)) (pos 0)

abbrev pub is_fully_released : MilestoneData → Bool
is_fully_released m = leb_ℤ m.target_amount m.released_amount

pub record DonorRecord : Type 0 where
  pub donor : Address
  pub total_donated : ℤ  -- i128
  pub asset : AssetInfo
  pub last_donation_time : ℕ  -- u64
  pub last_donation_ledger : ℕ  -- u32
  pub donation_count : ℕ  -- u32
  pub refund_claimed : Bool

abbrev pub new_for : Address → AssetInfo → DonorRecord
new_for d a = record {
  donor = d;
  total_donated = pos 0;
  asset = a;
  last_donation_time = 0;
  last_donation_ledger = 0;
  donation_count = 0;
  refund_claimed = false;
}

-- `DonorRecord::apply_donation`; `none` is its panic with `Overflow`.
unfoldable pub apply_donation : DonorRecord → ℤ → ℕ → ℕ → AssetInfo → Option DonorRecord
unfolding checked_add
apply_donation r amount time ledger a = elim (checked_add r.total_donated amount) [
  | none ↦ none
  | some total ↦ elim (checked_add_u32 r.donation_count 1) [
    | none ↦ none
    | some count ↦ some (record r {
      total_donated = total;
      last_donation_time = time;
      last_donation_ledger = ledger;
      donation_count = count;
      asset = a;
    })
  ]
]
