-- ===== src/Core/Types.antt =====
-- The types of crates/contracts/core/src/lib.rs and the contract's storage.
use orbit_chain_contracts.Common.{ℕ, String, ℤ, pos, Bool, Option, List}
use orbit_chain_contracts.Types.{Address}

-- `CoreError`
pub data CoreError : Type 0 where
  campaign_not_found campaign_not_active insufficient_amount insufficient_funds : CoreError
  unauthorized asset_not_specified not_initialized no_pending_withdrawal : CoreError
  withdrawal_already_pending withdrawal_not_pending withdrawal_not_approved : CoreError
  invalid_withdrawal_amount : CoreError

-- A `Symbol` is a short text.
abbrev pub Symbol : Type 0
Symbol = String

-- `BASE_FEE`
abbrev pub base_fee : ℤ
base_fee = pos 100

pub data WithdrawalStatus : Type 0 where
  pending approved submitted : WithdrawalStatus

pub record WithdrawalRequest : Type 0 where
  pub campaign_id : ℕ  -- u64
  pub recipient : Address
  pub amount : ℤ  -- i128
  pub status : WithdrawalStatus

pub record Campaign : Type 0 where
  pub id : ℕ  -- u64
  pub creator : Address
  pub title : Symbol
  pub goal : ℤ  -- i128
  pub raised : ℤ  -- i128
  pub deadline : ℕ  -- u64
  pub active : Bool

pub record DonationRecord : Type 0 where
  pub donor : Address
  pub amount : ℤ  -- i128, after the fee
  pub fee : ℤ  -- i128
  pub asset : Symbol
  pub timestamp : ℕ  -- u64

pub record DonationMetadata : Type 0 where
  pub campaign_id : ℕ  -- u64
  pub donor : Address
  pub amount : ℤ  -- i128
  pub memo : String
  pub timestamp : ℕ  -- u64

pub record CampaignReport : Type 0 where
  pub campaign_id : ℕ  -- u64
  pub creator : Address
  pub title : Symbol
  pub goal : ℤ  -- i128
  pub raised : ℤ  -- i128
  pub remaining : ℤ  -- i128
  pub progress_bps : ℕ  -- u32
  pub deadline : ℕ  -- u64
  pub active : Bool
  pub donor_count : ℕ  -- u32
  pub donation_count : ℕ  -- u32

pub record PlatformSummary : Type 0 where
  pub total_campaigns : ℕ  -- u64
  pub total_donations : ℕ  -- u64
  pub total_withdrawals : ℕ  -- u64
  pub total_transactions : ℕ  -- u64

pub record DashboardMetrics : Type 0 where
  pub total_campaigns : ℕ  -- u64
  pub active_campaigns : ℕ  -- u64
  pub total_donations : ℕ  -- u64
  pub total_withdrawals : ℕ  -- u64
  pub total_transactions : ℕ  -- u64

-- The events, with their topics and values.
pub data CoreEvent : Type 0 where
  campaign_created : Address → ℕ → CoreEvent
  donation_received : Address → ℕ → ℤ → Symbol → String → CoreEvent
  withdrawal_requested : Address → ℕ → Address → ℤ → CoreEvent
  withdrawal_approved : Address → ℕ → ℤ → CoreEvent
  transaction_submitted : Address → ℕ → ℤ → CoreEvent

-- What a call reads of the host.
pub record Env : Type 0 where
  pub timestamp : ℕ  -- u64
  pub authorized : Address → Bool

-- The contract's storage, one field for each kind of key, and the event log.
pub record State : Type 0 where
  pub admin : Option Address
  pub count : Option ℕ
  pub campaigns : ℕ → Option Campaign
  pub pending_withdrawal : ℕ → Option WithdrawalRequest
  pub asset_raised : ℕ → Symbol → Option ℤ
  pub history : ℕ → Option (List DonationRecord)
  pub donors : ℕ → Option (List Address)
  pub donation : ℕ → Address → Option DonationMetadata
  pub total_tx : Option ℕ
  pub total_donations : Option ℕ
  pub total_withdrawals : Option ℕ
  pub events : List CoreEvent
