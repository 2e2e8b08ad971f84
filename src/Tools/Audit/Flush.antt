-- ===== src/Tools/Audit/Flush.antt =====
-- The journal that the log of crates/tools/src/withdrawal_audit.rs stands for, and a flush.
use Prim.Native.String.{◌++◌ as ◌<>◌}
use mathlib.Core.List.{append-nil as list_append-nil}
use orbit_chain_contracts.Common.{
  String, Bool, true, false, not, ◌&&◌, ◌||◌, ◌≡◌, refl, sym, subst, ap, ◌∙◌, inl, inr, ◌⊎◌, Option,
  none, some, List, [], ◌∷◌, ◌++◌, arith, length, is_empty, is_none, Bool-cases, if◌then◌else◌,
}
use orbit_chain_contracts.Tools.Action.{Attempt, pure}
use orbit_chain_contracts.Tools.Audit.Types.{WithdrawalLogEntry, Store, Faults, AuditError}
use orbit_chain_contracts.Tools.Audit.{drop, content, write_pending, flush_to_disk}
use orbit_chain_contracts.Tools.Audit.Codec.{
  All, All-append, IsCodec, text_of, text_of-append, serialize_lem,
}

-- What the log promises: entries that are safe in the file, and entries that a crash would lose.
pub record Journal : Type 0 where
  pub durable : List WithdrawalLogEntry
  pub buffer : List WithdrawalLogEntry

abbrev early : Faults → Bool
early f = f.open_fails || f.metadata_fails || f.permissions_fail

abbrev pub is_clean : Faults → Bool
is_clean f = is_none f.cut_off && not f.fsync_fails

abbrev pub saved : Faults → Journal → Journal
saved f j = if early f then j else record { durable = j.durable ++ j.buffer; buffer = [] }

kept : (f : Faults) (j : Journal) → early f ≡ true → saved f j ≡ j
kept f j e = ground arith

moved :
    (f : Faults) (j : Journal)
    → early f ≡ false
    → saved f j ≡ record { durable = j.durable ++ j.buffer; buffer = [] }
moved f j e = ground arith

module _ {encode : WithdrawalLogEntry → Option String} {decode : String → Option WithdrawalLogEntry}
    {Entry : WithdrawalLogEntry → Type 0} (codec : IsCodec encode decode Entry) where
  -- The store holds the journal.
  pub record Holds (s : Store) (j : Journal) : Type 0 where
    pub entries : s.log.entries ≡ j.durable ++ j.buffer
    pub flushed : s.log.flushed ≡ length j.durable
    pub written : content s ≡ (text_of codec) j.durable
    pub missing : s.file ≡ none → j.durable ≡ []
    pub safe_entries : All Entry j.durable
    pub lost_entries : All Entry j.buffer

  drop-append : (xs ys : List WithdrawalLogEntry) → drop (length xs) (xs ++ ys) ≡ ys
  unfolding drop
  drop-append [] ys = refl
  drop-append (x ∷ xs) ys = drop-append xs ys

  -- The journal of a store whose file exists from now on.
  touched : (s : Store) (j : Journal) → Holds s j → Holds (record s { file = some (content s) }) j
  touched s j h = record {
    entries = h.entries;
    flushed = h.flushed;
    written = h.written;
    missing = λ e. absurd (ground arith);
    safe_entries = h.safe_entries;
    lost_entries = h.lost_entries;
  }

  write_early :
      (f : Faults) (s : Store) (pending : List WithdrawalLogEntry)
      → early f ≡ true
      → All Entry pending
      → ((write_pending encode decode f pending s).1 ≡ s)
        ⊎ ((write_pending encode decode f pending s).1 ≡ record s { file = some (content s) })
  unfolding write_pending
  write_early f s pending e l =
      let buf = serialize_lem codec pending s l in
      elim (Bool-cases f.open_fails) [
        | inl a ↦ inl (ground arith)
        | inr a ↦ elim (Bool-cases f.metadata_fails) [
          | inl b ↦ inr (ground arith)
          | inr b ↦ inr (ground arith)
        ]
      ]

  write_saved :
      (f : Faults) (s : Store) (pending : List WithdrawalLogEntry)
      → early f ≡ false
      → is_clean f ≡ true
      → All Entry pending
      → (write_pending encode decode f pending s).1 ≡ record s {
        file = some (content s <> (text_of codec) pending);
        owner_only = true;
        log = record s.log { flushed = length s.log.entries };
      }
  unfolding write_pending
  write_saved f s pending e c l = let buf = serialize_lem codec pending s l in ground arith

  -- Nothing was buffered.
  idle :
      (s : Store) (d b : List WithdrawalLogEntry)
      → b ≡ []
      → Holds s (record { durable = d; buffer = b })
      → Holds s (record { durable = d ++ b; buffer = [] })
  unfolding All
  idle s d b e h =
      let same : d ++ b ≡ d = ap (λ xs. d ++ xs) e ∙ list_append-nil d in
      record {
        entries = h.entries ∙ sym (list_append-nil (d ++ b));
        flushed = h.flushed ∙ ap length (sym same);
        written = h.written ∙ ap (text_of codec) (sym same);
        missing = λ q. same ∙ h.missing q;
        safe_entries = All-append Entry d b h.safe_entries h.lost_entries;
        lost_entries = tt;
      }

  saves :
      (s : Store) (d b : List WithdrawalLogEntry)
      → Holds s (record { durable = d; buffer = b })
      → Holds
          (record s {
            file = some (content s <> (text_of codec) b);
            owner_only = true;
            log = record s.log { flushed = length s.log.entries };
          })
          (record { durable = d ++ b; buffer = [] })
  unfolding All
  saves s d b h = record {
    entries = h.entries ∙ sym (list_append-nil (d ++ b));
    flushed = ap length h.entries;
    written = ap (λ u. u <> (text_of codec) b) h.written ∙ sym (text_of-append codec d b);
    missing = λ e. absurd (ground arith);
    safe_entries = All-append Entry d b h.safe_entries h.lost_entries;
    lost_entries = tt;
  }

  write-Holds :
      (f : Faults) (s : Store) (j : Journal)
      → is_clean f ≡ true
      → Holds s j
      → Holds (write_pending encode decode f j.buffer s).1 (saved f j)
  write-Holds f s j c h = elim (Bool-cases (early f)) [
    | inl e ↦ subst (Holds _) (sym (kept f j e)) (elim (write_early f s j.buffer e h.lost_entries) [
      | inl q ↦ subst (λ v. Holds v j) (sym q) h
      | inr q ↦ subst (λ v. Holds v j) (sym q) (touched s j h)
    ])
    | inr e ↦ subst (Holds _) (sym (moved f j e)) (
        subst (λ v. Holds v (record { durable = j.durable ++ j.buffer; buffer = [] }))
          (sym (write_saved f s j.buffer e c h.lost_entries)) (saves s j.durable j.buffer h))
  ]

  -- What `flush_to_disk` does with the pending entries.
  abbrev chosen : Faults → List WithdrawalLogEntry → Store → Attempt AuditError (Unit {0}) × Store
  chosen f p = elim (is_empty p) [ true ↦ pure tt | false ↦ write_pending encode decode f p ]

  chosen-Holds :
      (f : Faults) (s : Store) (d b : List WithdrawalLogEntry)
      → is_clean f ≡ true
      → Holds s (record { durable = d; buffer = b })
      → Holds (chosen f b s).1 (saved f (record { durable = d; buffer = b }))
  chosen-Holds f s d [] c h = elim (Bool-cases (early f)) [
    | inl e ↦ subst (Holds s) (sym (kept f (record { durable = d; buffer = [] }) e)) h
    | inr e ↦
        subst (Holds s) (sym (moved f (record { durable = d; buffer = [] }) e)) (idle s d [] refl h)
  ]
  chosen-Holds f s d (x ∷ b) c h = write-Holds f s (record { durable = d; buffer = x ∷ b }) c h

  pub flush-Holds :
      (f : Faults) (s : Store) (j : Journal)
      → is_clean f ≡ true
      → Holds s j
      → Holds (flush_to_disk encode decode f s).1 (saved f j)
  unfolding flush_to_disk
  flush-Holds f s j c h =
      let pending : drop s.log.flushed s.log.entries ≡ j.buffer =
        ap (λ n. drop n s.log.entries) h.flushed
        ∙ ap (drop (length j.durable)) h.entries
        ∙ drop-append j.durable j.buffer in
      subst (λ p. Holds (chosen f p s).1 (saved f j)) (sym pending)
        (chosen-Holds f s j.durable j.buffer c h)
