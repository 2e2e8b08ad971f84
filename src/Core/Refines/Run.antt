-- ===== src/Core/Refines/Run.antt =====
-- Any sequence of calls of crates/contracts/core/src/lib.rs.
use orbit_chain_contracts.Common.{pos, ◌≡◌, refl, sym, subst, some, List, [], ◌∷◌, wrap_i128}
use orbit_chain_contracts.Core.Types.{CoreEvent, State}
use orbit_chain_contracts.Core.Contract.{
  initialize, create_campaign, donate, withdraw, approve_withdrawal, submit_transaction,
}
use orbit_chain_contracts.Core.Effects.{
  new_id, after_create, after_donate, create_campaign-Becomes, donate-Becomes, initialize-Becomes,
}
use orbit_chain_contracts.Core.Effects.Withdrawals.{
  after_withdraw, after_approve, after_submit, withdraw-Becomes, approve_withdrawal-Becomes,
  submit_transaction-Becomes,
}
use orbit_chain_contracts.Core.Calls.{
  Call, initialize_call, create_call, donate_call, withdraw_call, approve_call, submit_call,
  settle_keeps, perform, run, fresh,
}
use orbit_chain_contracts.Core.Book.{enter, book_of, Allowed, IsLawful}
use orbit_chain_contracts.Core.Refines.{Reads}
use orbit_chain_contracts.Core.Refines.Donation.{donate-Allowed, donate-Reads}
use orbit_chain_contracts.Core.Refines.Steps.{
  initialize-Reads, create-Reads, withdraw-Allowed, withdraw-Reads, approve-Allowed, approve-Reads,
  submit-Allowed, submit-Reads,
}

record IsFaithful (s : State) : Type 0 where
  reads : Reads s (book_of s.events)
  lawful : IsLawful s.events

-- One more event.
extend :
    (s s' : State) (e : CoreEvent)
    → IsFaithful s
    → s'.events ≡ e ∷ s.events
    → Allowed e (book_of s.events)
    → Reads s' (enter e (book_of s.events))
    → IsFaithful s'
unfolding book_of IsLawful
extend s s' e h q allowed reads = record {
  reads = subst (λ es. Reads s' (book_of es)) (sym q) reads;
  lawful = subst IsLawful (sym q) (allowed, h.lawful);
}

abbrev become : {s' t : State} → s' ≡ t → IsFaithful t → IsFaithful s'
become e = subst IsFaithful (sym e)

perform-IsFaithful : (c : Call) (s : State) → IsFaithful s → IsFaithful (perform c s)
unfolding perform Allowed
perform-IsFaithful (initialize_call env admin) s h =
    settle_keeps IsFaithful s (initialize env admin s) h (λ v s' q.
      let (_, e) = initialize-Becomes env admin s s' q in
      become e (record {
        reads = initialize-Reads s (book_of s.events) h.reads (some admin) (some 0);
        lawful = h.lawful;
      }))
perform-IsFaithful (create_call env creator title goal deadline) s h =
    settle_keeps IsFaithful s (create_campaign env creator title goal deadline s) h (λ v s' q.
      let (_, _, e) = create_campaign-Becomes env creator title goal deadline s v s' q in
      become e (
        extend s (after_create env creator title goal deadline s)
          (CoreEvent.campaign_created creator (new_id env creator title goal deadline s)) h refl tt
          (create-Reads s (book_of s.events) h.reads env creator title goal deadline)))
perform-IsFaithful (donate_call env donor id amount asset memo) s h =
    settle_keeps IsFaithful s (donate env donor id amount asset memo s) h (λ v s' q.
      let (c, may, e) = donate-Becomes env donor id amount asset memo s s' q in
      become e (
        extend s (after_donate env donor id amount asset memo s c)
          (CoreEvent.donation_received donor id amount asset memo) h refl
          (donate-Allowed env donor id amount asset memo s (book_of s.events) h.reads c may)
          (donate-Reads env donor id amount asset memo s (book_of s.events) h.reads c may)))
perform-IsFaithful (withdraw_call env creator id recipient amount) s h =
    settle_keeps IsFaithful s (withdraw env creator id recipient amount s) h (λ v s' q.
      let (may, e) = withdraw-Becomes env creator id recipient amount s s' q in
      become e (
        extend s (after_withdraw env creator id recipient amount s)
          (CoreEvent.withdrawal_requested creator id recipient amount) h refl
          (withdraw-Allowed s (book_of s.events) h.reads env creator id recipient amount may)
          (withdraw-Reads s (book_of s.events) h.reads env creator id recipient amount may)))
perform-IsFaithful (approve_call env admin id) s h =
    settle_keeps IsFaithful s (approve_withdrawal env admin id s) h (λ v s' q.
      let (r, may, e, _) = approve_withdrawal-Becomes env admin id s v s' q in
      become e (
        extend s (after_approve env admin id s r may.campaign)
          (CoreEvent.withdrawal_approved admin id r.amount) h refl
          (approve-Allowed s (book_of s.events) h.reads env admin id r may)
          (approve-Reads s (book_of s.events) h.reads env admin id r may)))
perform-IsFaithful (submit_call env admin id) s h =
    settle_keeps IsFaithful s (submit_transaction env admin id s) h (λ v s' q.
      let (r, may, e, _) = submit_transaction-Becomes env admin id s v s' q in
      become e (
        extend s (after_submit env admin id s r) (CoreEvent.transaction_submitted admin id r.amount)
          h refl (submit-Allowed s (book_of s.events) h.reads env admin id r may)
          (submit-Reads s (book_of s.events) h.reads env admin id r may)))

run-IsFaithful : (cs : List Call) (s : State) → IsFaithful s → IsFaithful (run cs s)
unfolding run
run-IsFaithful [] s h = h
run-IsFaithful (c ∷ cs) s h = run-IsFaithful cs (perform c s) (perform-IsFaithful c s h)

wrap_zero : wrap_i128 (pos 0) ≡ pos 0
unfolding wrap_i128
wrap_zero = refl

fresh-IsFaithful : IsFaithful fresh
unfolding book_of IsLawful
fresh-IsFaithful = record {
  reads = record {
    balance = λ id. refl;
    profile = λ id. refl;
    gift = λ id donor. refl;
    per_asset = λ id asset. sym wrap_zero;
    promised = λ id. refl;
    receipts = λ id. refl;
    donors = λ id. refl;
    donations = refl;
    withdrawals = refl;
    transactions = refl;
  };
  lawful = tt;
}

-- After any sequence of calls, initializations included, of a contract that was never called before,
-- the events alone determine this of what is stored: each campaign's identifier, creator and flag
-- active; its raised amount and each amount for an asset (the exact amounts of the book, wrapped to
-- 128 bits); the withdrawal request with its recipient, amount and status; the history in order, with
-- donor, net amount, fee and asset of each record; each donor's last donation with its amount and memo;
-- the distinct donors in order; and the counters of donations, withdrawals and transactions, the last
-- one their sum (wrapped to 64 bits). Titles, goals, deadlines, times, the administrator and the count
-- of campaigns are in no event and left out.
pub run-Reads : (cs : List Call) → Reads (run cs fresh) (book_of (run cs fresh).events)
run-Reads cs = (run-IsFaithful cs fresh fresh-IsFaithful).reads

-- After any sequence of calls of a contract that was never called before, each event was allowed when
-- it was published, by the book of the events before it: a donation was above the base fee, named an
-- asset and went to a campaign that exists; a requested amount was positive, within the campaign's
-- raised amount, and no earlier request was still to be submitted; an approval is of the pending
-- request, for its amount, within the raised amount; a submission is of the approved request, for
-- its amount. So each request is approved at most once and submitted at most once, in this order.
pub run-IsLawful : (cs : List Call) → IsLawful (run cs fresh).events
run-IsLawful cs = (run-IsFaithful cs fresh fresh-IsFaithful).lawful
