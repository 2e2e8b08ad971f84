-- ===== src/Tools/Audit/Types.antt =====
-- The types of crates/tools/src/withdrawal_audit.rs, and the file that the log is kept in.
use orbit_chain_contracts.Common.{ℕ, String, ℤ, Bool, Option, List}

pub data WithdrawalAction : Type 0 where
  requested approved submitted rejected : WithdrawalAction

pub record WithdrawalLogEntry : Type 0 where
  pub campaign_id : ℕ  -- u64
  pub recipient : String
  pub amount : ℤ  -- i128
  pub action : WithdrawalAction
  pub actor : String
  pub timestamp : ℤ  -- i64
  pub ledger_timestamp : Option ℕ
  pub tx_hash : Option String

pub record WithdrawalAuditLog : Type 0 where
  pub entries : List WithdrawalLogEntry
  pub flushed : ℕ  -- usize

-- The contexts of the errors.
pub data AuditError : Type 0 where
  serialize_failed open_failed metadata_failed permissions_failed append_failed fsync_failed :
      AuditError
  read_failed : AuditError
  malformed_entry : ℕ → AuditError

-- The log, its file, and whether only the owner may read it.
pub record Store : Type 0 where
  pub log : WithdrawalAuditLog
  pub file : Option String
  pub owner_only : Bool

-- What fails in a flush; `cut_off` is the part that a failing write has written.
pub record Faults : Type 0 where
  pub open_fails : Bool
  pub metadata_fails : Bool
  pub permissions_fail : Bool
  pub cut_off : Option String
  pub fsync_fails : Bool
