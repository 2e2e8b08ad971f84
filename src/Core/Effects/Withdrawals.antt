-- ===== src/Core/Effects/Withdrawals.antt =====
-- `withdraw`, `approve_withdrawal` and `submit_transaction` of crates/contracts/core/src/lib.rs.
use orbit_chain_contracts.Common.{
  ℕ, ℤ, pos, ◌-ℤ◌, ◌<ℤ◌, ◌≤ℤ◌, ◌≡◌, inl, inr, true, false, some, ◌∷◌, arith, update, wrap_i128,
  Option-cases,
}
use orbit_chain_contracts.Types.{Address}
use orbit_chain_contracts.Exec.{ok}
use orbit_chain_contracts.Core.Types.{
  pending, approved, submitted, WithdrawalRequest, Campaign, CoreEvent, Env, State,
}
use orbit_chain_contracts.Core.Contract.{
  is_open, withdraw_checks, new_request, withdraw, check_admin, approve_withdrawal,
  submit_transaction, count_tx, count_withdrawal,
}
use orbit_chain_contracts.Core.Effects.{next}

module _ (env : Env) (creator : Address) (id : ℕ) (recipient : Address) (amount : ℤ)
    (s : State) where
  -- What `withdraw` tests.
  pub record MayWithdraw : Type 0 where
    pub campaign : Campaign
    pub signed : env.authorized creator ≡ true
    pub positive : pos 0 <ℤ amount
    pub stored : s.campaigns id ≡ some campaign
    pub owned : campaign.creator ≡ creator
    pub covered : amount ≤ℤ campaign.raised
    pub not_open : is_open (s.pending_withdrawal id) ≡ false

  abbrev pub after_withdraw : State
  after_withdraw = record s {
    pending_withdrawal = update s.pending_withdrawal id (some (new_request id recipient amount));
    total_tx = next s.total_tx;
    total_withdrawals = next s.total_withdrawals;
    events = CoreEvent.withdrawal_requested creator id recipient amount ∷ s.events;
  }

  pub withdraw-Becomes :
      (s' : State)
      → withdraw env creator id recipient amount s ≡ ok (tt, s')
      → MayWithdraw × (s' ≡ after_withdraw)
  unfolding withdraw withdraw_checks count_tx count_withdrawal
  withdraw-Becomes s' h = elim (Option-cases (s.campaigns id)) [
    | inl e ↦ absurd (ground arith)
    | inr (c, e) ↦ (
      record {
        campaign = c;
        signed = ground arith;
        positive = ground arith;
        stored = e;
        owned = ground arith;
        covered = ground arith;
        not_open = ground arith;
      },
      ground arith,
    )
  ]

module _ (env : Env) (admin : Address) (s : State) where
  pub check_admin_lem :
      (s' : State)
      → check_admin env admin s ≡ ok (tt, s')
      → (env.authorized admin ≡ true) × (s.admin ≡ some admin) × (s' ≡ s)
  unfolding check_admin
  check_admin_lem s' h = elim (Option-cases s.admin) [
    | inl e ↦ absurd (ground arith)
    | inr (a, e) ↦ (ground arith, ground arith, ground arith)
  ]

module _ (env : Env) (admin : Address) (id : ℕ) (s : State) where
  -- What `approve_withdrawal` tests.
  pub record MayApprove (r : WithdrawalRequest) : Type 0 where
    pub campaign : Campaign
    pub signed : env.authorized admin ≡ true
    pub is_admin : s.admin ≡ some admin
    pub requested : s.pending_withdrawal id ≡ some r
    pub status : r.status ≡ pending
    pub stored : s.campaigns id ≡ some campaign
    pub covered : r.amount ≤ℤ campaign.raised

  abbrev pub after_approve : WithdrawalRequest → Campaign → State
  after_approve r c = record s {
    campaigns =
        update s.campaigns id (some (record c { raised = wrap_i128 (c.raised -ℤ r.amount) }));
    pending_withdrawal = update s.pending_withdrawal id (some (record r { status = approved }));
    events = CoreEvent.withdrawal_approved admin id r.amount ∷ s.events;
  }

  pub approve_withdrawal-Becomes :
      (v : WithdrawalRequest) (s' : State)
      → approve_withdrawal env admin id s ≡ ok (v, s')
      → (r : WithdrawalRequest) × (may : MayApprove r) × (s' ≡ after_approve r may.campaign)
        × (v ≡ record r { status = approved })
  unfolding approve_withdrawal check_admin
  approve_withdrawal-Becomes v s' h = elim (Option-cases (s.pending_withdrawal id)) [
    | inl e ↦ absurd (ground arith)
    | inr (r, e) ↦ elim (Option-cases (s.campaigns id)) [
      | inl f ↦ absurd (ground arith)
      | inr (c, f) ↦ (
        r,
        record {
          campaign = c;
          signed = ground arith;
          is_admin = ground arith;
          requested = e;
          status = ground arith;
          stored = f;
          covered = ground arith;
        },
        ground arith,
        ground arith,
      )
    ]
  ]

  -- What `submit_transaction` tests.
  pub record MaySubmit (r : WithdrawalRequest) : Type 0 where
    pub signed : env.authorized admin ≡ true
    pub is_admin : s.admin ≡ some admin
    pub requested : s.pending_withdrawal id ≡ some r
    pub status : r.status ≡ approved

  abbrev pub after_submit : WithdrawalRequest → State
  after_submit r = record s {
    pending_withdrawal = update s.pending_withdrawal id (some (record r { status = submitted }));
    events = CoreEvent.transaction_submitted admin id r.amount ∷ s.events;
  }

  pub submit_transaction-Becomes :
      (v : WithdrawalRequest) (s' : State)
      → submit_transaction env admin id s ≡ ok (v, s')
      → (r : WithdrawalRequest) × MaySubmit r
        × (s' ≡ after_submit r)
        × (v ≡ record r { status = submitted })
  unfolding submit_transaction check_admin
  submit_transaction-Becomes v s' h = elim (Option-cases (s.pending_withdrawal id)) [
    | inl e ↦ absurd (ground arith)
    | inr (r, e) ↦ (
      r,
      record {
        signed = ground arith;
        is_admin = ground arith;
        requested = e;
        status = ground arith;
      },
      ground arith,
      ground arith,
    )
  ]
