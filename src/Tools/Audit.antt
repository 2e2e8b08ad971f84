-- ===== src/Tools/Audit.antt =====
-- crates/tools/src/withdrawal_audit.rs: the log of withdrawal actions in memory and its append-only
-- file. `encode` and `decode` are serde_json's, for an entry; the file system is a file that may not
-- exist, and the failures that a call meets.
pub mod Types
pub mod Codec
pub mod Flush
pub mod Journal
use Prim.Native.String.{◌++◌ as ◌<>◌}
use orbit_chain_contracts.Common.{
  ℕ, zero, suc, ◌+◌, ◌-◌, String, ℤ, Bool, true, false, Option, none, some, List, [], ◌∷◌, ◌++◌,
  length, is_empty,
}
use orbit_chain_contracts.Tools.Action.{
  Attempt, ok, err, Action, pure, gets, modify, fail_if, ok_or, ◌>>=◌, ◌>>◌,
}
use orbit_chain_contracts.Tools.Lines.{lines, is_blank}
use orbit_chain_contracts.Tools.Audit.Types.{
  WithdrawalAction, requested, approved, submitted, rejected, WithdrawalLogEntry,
  WithdrawalAuditLog, Store, Faults, AuditError, serialize_failed, open_failed, metadata_failed,
  permissions_failed, append_failed, fsync_failed, read_failed, malformed_entry,
}

-- `Display`
abbrev pub action_name : WithdrawalAction → String
action_name requested = "Requested"
action_name approved = "Approved"
action_name submitted = "Submitted"
action_name rejected = "Rejected"

-- `FixedClock::now_timestamp`
abbrev pub fixed_clock : ℤ → ℤ
fixed_clock t = t

abbrev pub empty_log : WithdrawalAuditLog
empty_log = record { entries = []; flushed = 0 }

-- `now` is what the clock answers.
abbrev pub new_entry :
    ℤ → WithdrawalAction → ℕ → String → ℤ → String → Option ℕ → Option String → WithdrawalLogEntry
new_entry now action campaign_id recipient amount actor ledger_timestamp tx_hash = record {
  campaign_id = campaign_id;
  recipient = recipient;
  amount = amount;
  action = action;
  actor = actor;
  timestamp = now;
  ledger_timestamp = ledger_timestamp;
  tx_hash = tx_hash;
}

-- `log`, of the entry that the arguments and the clock make.
abbrev pub push : WithdrawalLogEntry → WithdrawalAuditLog → WithdrawalAuditLog
push e log = record log { entries = log.entries ++ e ∷ [] }

abbrev pub len : WithdrawalAuditLog → ℕ
len log = length log.entries

abbrev pub pending_flush : WithdrawalAuditLog → ℕ
pending_flush log = length log.entries - log.flushed

-- `&v[n..]`, for an `n` within the length.
unfoldable pub drop : {A : Type 0} → ℕ → List A → List A
drop zero xs = xs
drop (suc n) [] = []
drop (suc n) (x ∷ xs) = drop n xs

-- The file, as far as it exists.
abbrev pub text_in : Option String → String
text_in none = ""
text_in (some text) = text

abbrev pub content : Store → String
content s = text_in s.file

-- A `write_all` that fails may have written a part of the buffer.
abbrev pub append : Faults → String → Action AuditError Store (Unit {0})
append f buf s = elim f.cut_off [
  | none ↦ (ok tt, record s { file = some (content s <> buf) })
  | some part ↦ (err append_failed, record s { file = some (content s <> part) })
]

abbrev pub loaded :
    Attempt AuditError (List WithdrawalLogEntry) → Attempt AuditError WithdrawalAuditLog
loaded (ok es) = ok (record { entries = es; flushed = length es })
loaded (err x) = err x

module _ (encode : WithdrawalLogEntry → Option String)
    (decode : String → Option WithdrawalLogEntry) where
  -- The loop over the pending entries; the result is the buffer.
  unfoldable pub serialize : List WithdrawalLogEntry → Action AuditError Store String
  serialize [] = pure ""
  serialize (e ∷ es) = do
    line ← ok_or (encode e) serialize_failed
    rest ← serialize es
    pure (line <> "\n" <> rest)

  unfoldable pub write_pending :
      Faults → List WithdrawalLogEntry → Action AuditError Store (Unit {0})
  unfolding serialize
  write_pending f pending = do
    buf ← serialize pending
    fail_if f.open_fails open_failed
    modify (λ s. record s { file = some (content s) })
    fail_if f.metadata_fails metadata_failed
    fail_if f.permissions_fail permissions_failed
    modify (λ s. record s { owner_only = true })
    append f buf
    fail_if f.fsync_fails fsync_failed
    modify (λ s. record s { log = record s.log { flushed = length s.log.entries } })

  unfoldable pub flush_to_disk : Faults → Action AuditError Store (Unit {0})
  unfolding write_pending drop
  flush_to_disk f = do
    pending ← gets (λ s. drop s.log.flushed s.log.entries)
    elim (is_empty pending) [ true ↦ pure tt | false ↦ write_pending f pending ]

  -- The loop over the lines; `lineno` counts from 0.
  unfoldable pub parse_lines : ℕ → List String → Attempt AuditError (List WithdrawalLogEntry)
  parse_lines lineno [] = ok []
  parse_lines lineno (l ∷ ls) =
      let rest = parse_lines (suc lineno) ls in
      elim (is_blank l) [
        | true ↦ rest
        | false ↦ elim (decode l) [
          | none ↦ err (malformed_entry (lineno + 1))
          | some e ↦ elim rest [ ok es ↦ ok (e ∷ es) | err x ↦ err x ]
        ]
      ]

  -- `load_from_disk_with_clock`, where the read fails or not.
  unfoldable pub load_from_disk : Bool → Option String → Attempt AuditError WithdrawalAuditLog
  unfolding parse_lines lines is_blank
  load_from_disk read_fails none = ok empty_log
  load_from_disk true (some text) = err read_failed
  load_from_disk false (some text) = loaded (parse_lines 0 (lines text))
