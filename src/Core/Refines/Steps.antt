-- ===== src/Core/Refines/Steps.antt =====
-- The other calls of crates/contracts/core/src/lib.rs keep the storage in step with the book.
use orbit_chain_contracts.Common.{ℕ, ℤ, pos, ◌≡◌, refl, Option, arith, wrap_i128}
use orbit_chain_contracts.Types.{Address}
use orbit_chain_contracts.Math.Wrap.{wrap_sub}
use orbit_chain_contracts.Core.Types.{Symbol, WithdrawalRequest, CoreEvent, Env, State}
use orbit_chain_contracts.Core.Effects.{after_create, new_id}
use orbit_chain_contracts.Core.Effects.Withdrawals.{
  MayWithdraw, MayApprove, MaySubmit, after_withdraw, after_approve, after_submit,
}
use orbit_chain_contracts.Core.Book.{Book, enter, Allowed}
use orbit_chain_contracts.Core.Refines.{Reads, has_balance}

wrap_zero : wrap_i128 (pos 0) ≡ pos 0
unfolding wrap_i128
wrap_zero = refl

module _ (s : State) (b : Book) (reads : Reads s b) where
  pub initialize-Reads :
      (a : Option Address) (n : Option ℕ) → Reads (record s { admin = a; count = n }) b
  initialize-Reads a n = record {
    balance = reads.balance;
    profile = reads.profile;
    gift = reads.gift;
    per_asset = reads.per_asset;
    promised = reads.promised;
    receipts = reads.receipts;
    donors = reads.donors;
    donations = reads.donations;
    withdrawals = reads.withdrawals;
    transactions = reads.transactions;
  }

  pub create-Reads :
      (env : Env) (creator : Address) (title : Symbol) (goal : ℤ) (deadline : ℕ)
      → Reads
          (after_create env creator title goal deadline s)
          (enter (CoreEvent.campaign_created creator (new_id env creator title goal deadline s)) b)
  unfolding enter
  create-Reads env creator title goal deadline = record {
    balance = λ j. let old = reads.balance j in ground (arith, wrap_zero);
    profile = λ j. let old = reads.profile j in ground arith;
    gift = reads.gift;
    per_asset = reads.per_asset;
    promised = reads.promised;
    receipts = reads.receipts;
    donors = reads.donors;
    donations = reads.donations;
    withdrawals = reads.withdrawals;
    transactions = reads.transactions;
  }

  module _ (env : Env) (creator : Address) (id : ℕ) (recipient : Address) (amount : ℤ)
      (may : MayWithdraw env creator id recipient amount s) where
    pub withdraw-Allowed : Allowed (CoreEvent.withdrawal_requested creator id recipient amount) b
    unfolding Allowed
    withdraw-Allowed =
        let (v, e, f) = has_balance s b reads id may.campaign may.stored in
        let old = reads.promised id in
        let none_open = may.not_open in
        let covered = may.covered in (may.positive, ground arith, v, e, ground arith)

    pub withdraw-Reads :
        Reads
          (after_withdraw env creator id recipient amount s)
          (enter (CoreEvent.withdrawal_requested creator id recipient amount) b)
    unfolding enter
    withdraw-Reads = record {
      balance = reads.balance;
      profile = reads.profile;
      gift = reads.gift;
      per_asset = reads.per_asset;
      promised = λ j. let old = reads.promised j in ground arith;
      receipts = reads.receipts;
      donors = reads.donors;
      donations = reads.donations;
      withdrawals = omega (arith, reads.withdrawals);
      transactions = omega (arith, reads.transactions);
    }

  module _ (env : Env) (admin : Address) (id : ℕ) (r : WithdrawalRequest) where
    pub approve-Allowed :
        MayApprove env admin id s r → Allowed (CoreEvent.withdrawal_approved admin id r.amount) b
    unfolding Allowed
    approve-Allowed may =
        let (v, e, f) = has_balance s b reads id may.campaign may.stored in
        let old = reads.promised id in
        let asked = may.requested in
        let covered = may.covered in
        (
          record { recipient = r.recipient; amount = r.amount; stage = r.status },
          ground arith,
          may.status,
          refl,
          v,
          e,
          ground arith,
        )

    pub approve-Reads :
        (may : MayApprove env admin id s r)
        → Reads
            (after_approve env admin id s r may.campaign)
            (enter (CoreEvent.withdrawal_approved admin id r.amount) b)
    unfolding enter
    approve-Reads may =
        let (v, e, f) = has_balance s b reads id may.campaign may.stored in
        let difference = wrap_sub v r.amount in
        let asked = may.requested in
        record {
          balance = λ j. let old = reads.balance j in ground arith;
          profile = λ j. let old = reads.profile j in let stored = may.stored in ground arith;
          gift = reads.gift;
          per_asset = reads.per_asset;
          promised =
              λ j. let old = reads.promised j in let this = reads.promised id in ground arith;
          receipts = reads.receipts;
          donors = reads.donors;
          donations = reads.donations;
          withdrawals = reads.withdrawals;
          transactions = reads.transactions;
        }

    pub submit-Allowed :
        MaySubmit env admin id s r → Allowed (CoreEvent.transaction_submitted admin id r.amount) b
    unfolding Allowed
    submit-Allowed may =
        let old = reads.promised id in
        let asked = may.requested in
        (
          record { recipient = r.recipient; amount = r.amount; stage = r.status },
          ground arith,
          may.status,
          refl,
        )

    pub submit-Reads :
        MaySubmit env admin id s r
        → Reads
            (after_submit env admin id s r)
            (enter (CoreEvent.transaction_submitted admin id r.amount) b)
    unfolding enter
    submit-Reads may =
        let asked = may.requested in
        record {
          balance = reads.balance;
          profile = reads.profile;
          gift = reads.gift;
          per_asset = reads.per_asset;
          promised =
              λ j. let old = reads.promised j in let this = reads.promised id in ground arith;
          receipts = reads.receipts;
          donors = reads.donors;
          donations = reads.donations;
          withdrawals = reads.withdrawals;
          transactions = reads.transactions;
        }
