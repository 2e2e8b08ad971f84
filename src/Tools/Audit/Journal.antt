-- ===== src/Tools/Audit/Journal.antt =====
-- The log of crates/tools/src/withdrawal_audit.rs over flushes, failures and restarts.
use mathlib.Core.List.{append-nil as list_append-nil, append_assoc as list_append_assoc}
use orbit_chain_contracts.Common.{
  String, true, false, ◌≡◌, refl, sym, subst, ap, ◌∙◌, Option, none, List, [], ◌∷◌, ◌++◌, arith,
  length, length-append,
}
use orbit_chain_contracts.Tools.Action.{Attempt, ok, err}
use orbit_chain_contracts.Tools.Audit.Types.{
  WithdrawalLogEntry, WithdrawalAuditLog, Store, Faults, AuditError,
}
use orbit_chain_contracts.Tools.Audit.{
  empty_log, pending_flush, push, flush_to_disk, load_from_disk,
}
use orbit_chain_contracts.Tools.Audit.Codec.{All, All-append, IsCodec, text_of, load_lem}
use orbit_chain_contracts.Tools.Audit.Flush.{Journal, Holds, saved, is_clean, flush-Holds}

pub data Op : Type 0 where
  log_op : WithdrawalLogEntry → Op
  flush_op : Faults → Op
  restart_op : Op

-- The same for the journal: a flush that fails before it writes saves nothing.
pub note : Op → Journal → Journal
note (log_op e) j = record j { buffer = j.buffer ++ e ∷ [] }
note (flush_op f) j = saved f j
note restart_op j = record j { buffer = [] }

unfoldable pub replay : List Op → Journal → Journal
replay [] j = j
replay (o ∷ os) j = replay os (note o j)

-- The entries are of a kind, no write is cut off and no sync fails.
unfoldable pub IsClean : (WithdrawalLogEntry → Type 0) → List Op → Type 0
IsClean Entry [] = Unit
IsClean Entry (log_op e ∷ os) = Entry e × IsClean Entry os
IsClean Entry (flush_op f ∷ os) = (is_clean f ≡ true) × IsClean Entry os
IsClean Entry (restart_op ∷ os) = IsClean Entry os

abbrev pub fresh : Store
fresh = record { log = empty_log; file = none; owner_only = false }

abbrev pub blank : Journal
blank = record { durable = []; buffer = [] }

module _ (encode : WithdrawalLogEntry → Option String)
    (decode : String → Option WithdrawalLogEntry) where
  abbrev reopened : Store → Attempt AuditError WithdrawalAuditLog → Store
  reopened s (ok log) = record s { log = log }
  reopened s (err e) = s

  -- A restart loses the log in memory and loads the file.
  pub step : Op → Store → Store
  step (log_op e) s = record s { log = push e s.log }
  step (flush_op f) s = (flush_to_disk encode decode f s).1
  step restart_op s = reopened s (load_from_disk encode decode false s.file)

  pub run : List Op → Store → Store
  run [] s = s
  run (o ∷ os) s = run os (step o s)

module _ {encode : WithdrawalLogEntry → Option String} {decode : String → Option WithdrawalLogEntry}
    {Entry : WithdrawalLogEntry → Type 0} (codec : IsCodec encode decode Entry) where
  reopened-Holds :
      (s : Store) (j : Journal)
      → Holds codec s j
      → Holds codec
          (reopened encode decode s (load_from_disk encode decode false s.file))
          (record j { buffer = [] })
  unfolding All
  reopened-Holds s j h =
      subst (λ r. Holds codec (reopened encode decode s r) (record j { buffer = [] }))
        (sym (load_lem codec s.file j.durable h.written h.missing h.safe_entries))
        (record {
          entries = sym (list_append-nil j.durable);
          flushed = refl;
          written = h.written;
          missing = h.missing;
          safe_entries = h.safe_entries;
          lost_entries = tt;
        })

  step-Holds :
      (o : Op) (os : List Op) (s : Store) (j : Journal)
      → IsClean Entry (o ∷ os)
      → Holds codec s j
      → Holds codec (step encode decode o s) (note o j) × IsClean Entry os
  unfolding step note IsClean All
  step-Holds (log_op e) os s j (l, c) h = (
    record {
      entries = ap (λ es. es ++ e ∷ []) h.entries ∙ list_append_assoc j.durable j.buffer (e ∷ []);
      flushed = h.flushed;
      written = h.written;
      missing = h.missing;
      safe_entries = h.safe_entries;
      lost_entries = All-append Entry j.buffer (e ∷ []) h.lost_entries (l, tt);
    },
    c,
  )
  step-Holds (flush_op f) os s j (c, rest) h = (flush-Holds codec f s j c h, rest)
  step-Holds restart_op os s j c h = (reopened-Holds s j h, c)

  run-Holds :
      (os : List Op) (s : Store) (j : Journal)
      → IsClean Entry os
      → Holds codec s j
      → Holds codec (run encode decode os s) (replay os j)
  unfolding run replay
  run-Holds [] s j c h = h
  run-Holds (o ∷ os) s j c h =
      let (h', c') = step-Holds o os s j c h in
      run-Holds os (step encode decode o s) (note o j) c' h'

  fresh-Holds : Holds codec fresh blank
  unfolding text_of All
  fresh-Holds = record {
    entries = refl;
    flushed = refl;
    written = refl;
    missing = λ e. refl;
    safe_entries = tt;
    lost_entries = tt;
  }

  -- Over any sequence of logged entries, flushes and restarts from an empty log without a file, where
  -- no write is cut off and no sync fails (a flush may fail before it writes), and where serde_json's
  -- text of each logged entry is one line, not blank, that reads back as the entry: the log in memory is the
  -- entries that the journal says are safe, then those it says are not, `pending_flush` is the number
  -- of the latter, and loading the file gives exactly the safe entries in order, each once, all of
  -- them as flushed.
  pub run-load :
      (os : List Op)
      → IsClean Entry os
      → ((run encode decode os fresh).log.entries
          ≡ (replay os blank).durable ++ (replay os blank).buffer)
        × (pending_flush (run encode decode os fresh).log ≡ length (replay os blank).buffer)
        × (load_from_disk encode decode false (run encode decode os fresh).file
            ≡ ok (record {
              entries = (replay os blank).durable;
              flushed = length (replay os blank).durable;
            }))
  run-load os c =
      let h = run-Holds os fresh blank c fresh-Holds in
      let total =
        ap length h.entries ∙ length-append (replay os blank).durable (replay os blank).buffer in
      (
        h.entries,
        omega (arith, total, h.flushed),
        load_lem codec (run encode decode os fresh).file (replay os blank).durable h.written
            h.missing h.safe_entries,
      )
