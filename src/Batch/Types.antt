-- ===== src/Batch/Types.antt =====
-- crates/contracts/batch-donor/src/types.rs, and the error type of batch.rs.
use orbit_chain_contracts.Common.{ℕ, ℤ, Bool, true, false, Option}
use orbit_chain_contracts.Types.{Address}

pub data AssetInfo : Type 0 where
  native : AssetInfo
  stellar : Address → AssetInfo

abbrev pub is_native : AssetInfo → Bool
is_native native = true
is_native (stellar a) = false

pub record DonateTarget : Type 0 where
  pub campaign : Address
  pub donor : Address
  pub amount : ℤ  -- i128
  pub asset : AssetInfo

pub data BatchDonateOutcome : Type 0 where
  success : BatchDonateOutcome
  validation_failed : ℕ → BatchDonateOutcome
  invocation_failed : BatchDonateOutcome

-- `validation_code`
abbrev pub campaign_not_ready : ℕ
campaign_not_ready = 1

abbrev pub donor_unauthorized : ℕ
donor_unauthorized = 2

abbrev pub invalid_amount : ℕ
invalid_amount = 3

abbrev pub empty_batch : ℕ
empty_batch = 4

abbrev pub batch_too_large : ℕ
batch_too_large = 5

pub record BatchDonateResult : Type 0 where
  pub index : ℕ  -- u32
  pub outcome : BatchDonateOutcome
  pub validation_code : Option ℕ

-- `stub::ValidationError`
pub data ValidationError : Type 0 where
  batch_empty batch_too_large_error invalid_amount_error : ValidationError

-- Whatever the code, the error is the same.
abbrev pub from_code : ℕ → ValidationError
from_code code = batch_empty

-- The host's values, as far as the calls use them.
pub data Val : Type 0 where
  address_val : Address → Val
  i128_val : ℤ → Val
  asset_val : AssetInfo → Val
