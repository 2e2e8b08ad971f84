-- ===== src/Types/Responses.antt =====
-- The response and event types of campaign/src/types.rs that the contract builds.
use orbit_chain_contracts.Common.{ℕ, ℤ, Bool}
use orbit_chain_contracts.Types.Assets.{Address}
use orbit_chain_contracts.Types.Status.{CampaignStatus}
use orbit_chain_contracts.Types.Records.{MilestoneData}

pub record CampaignStatusResponse : Type 0 where
  pub status : CampaignStatus
  pub days_remaining : ℤ  -- i64

pub record CampaignReport : Type 0 where
  pub creator : Address
  pub goal_amount : ℤ  -- i128
  pub raised_amount : ℤ  -- i128
  pub remaining_amount : ℤ  -- i128
  pub progress_bps : ℕ  -- u32
  pub end_time : ℕ  -- u64
  pub status : CampaignStatus
  pub milestone_count : ℕ  -- u32
  pub donor_count : ℕ  -- u32
  pub donation_count : ℕ  -- u64
  pub release_count : ℕ  -- u64

pub record PlatformSummary : Type 0 where
  pub total_campaigns : ℕ
  pub active_campaigns : ℕ
  pub total_donations : ℕ
  pub total_releases : ℕ
  pub total_transactions : ℕ

pub record DashboardMetrics : Type 0 where
  pub total_campaigns : ℕ
  pub active_campaigns : ℕ
  pub total_donations : ℕ
  pub total_releases : ℕ
  pub total_transactions : ℕ

pub record CampaignInitializedEvent : Type 0 where
  pub creator : Address
  pub goal_amount : ℤ
  pub end_time : ℕ
  pub asset_count : ℕ
  pub milestone_count : ℕ
  pub created_at_ledger : ℕ

-- `MilestoneView` of campaign/src/views.rs
pub record MilestoneView : Type 0 where
  pub milestone : MilestoneData
  pub pending_release : ℤ
  pub is_fully_released : Bool
  pub is_next_pending : Bool
