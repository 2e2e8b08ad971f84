-- ===== src/Core/Kept.antt =====
-- What calls of crates/contracts/core/src/lib.rs leave as it is: the terms of a campaign.
use orbit_chain_contracts.Common.{
  ℕ, ℤ, ◌≡◌, refl, ap, ◌∙◌, inl, inr, Bool, true, false, some, List, [], ◌∷◌, any, update, pos,
  ◌+ℤ◌, ◌-ℤ◌, wrap_i128, ◌==◌, arith, Bool-cases,
}
use orbit_chain_contracts.Types.{Address}
use orbit_chain_contracts.Exec.{ok}
use orbit_chain_contracts.Core.Types.{Symbol, Campaign, Env, State}
use orbit_chain_contracts.Core.Contract.{
  net_of, initialize, create_campaign, donate, withdraw, approve_withdrawal, submit_transaction,
}
use orbit_chain_contracts.Core.Effects.{create_campaign-Becomes, donate-Becomes, initialize-Becomes}
use orbit_chain_contracts.Core.Effects.Withdrawals.{
  withdraw-Becomes, approve_withdrawal-Becomes, submit_transaction-Becomes,
}
use orbit_chain_contracts.Core.Calls.{
  Call, initialize_call, create_call, donate_call, withdraw_call, approve_call, submit_call,
  settle_keeps, perform, run,
}

abbrev pub creates : Call → Bool
creates (create_call env creator title goal deadline) = true
creates _ = false

-- The campaign is still stored, and at most what it raised is different.
abbrev HasTerms : ℕ → Campaign → State → Type 0
HasTerms id c s = (d : Campaign) × (s.campaigns id ≡ some d) × (d ≡ record c { raised = d.raised })

-- A change of what one campaign raised.
raise-HasTerms :
    (id j : ℕ) (c e : Campaign) (r : ℤ) (s s' : State)
    → HasTerms id c s
    → s.campaigns j ≡ some e
    → s'.campaigns ≡ update s.campaigns j (some (record e { raised = r }))
    → HasTerms id c s'
raise-HasTerms id j c e r s s' (d, stored, same) at_j after =
    let now = ap (λ f. f id) after in
    elim (Bool-cases (j == id)) [
      | inl hit ↦
          let match : d ≡ e = ground (arith, hit, stored, at_j) in
          (record e { raised = r }, ground (arith, hit, now), ground (arith, match, same))
      | inr miss ↦ (d, ground (arith, miss, now, stored), same)
    ]

-- Campaigns that a call does not touch.
same-HasTerms :
    (id : ℕ) (c : Campaign) (s s' : State)
    → HasTerms id c s
    → s'.campaigns ≡ s.campaigns
    → HasTerms id c s'
same-HasTerms id c s s' (d, stored, same) after = (d, ap (λ f. f id) after ∙ stored, same)

perform-HasTerms :
    (id : ℕ) (c : Campaign) (call : Call) (s : State)
    → creates call ≡ false
    → HasTerms id c s
    → HasTerms id c (perform call s)
unfolding perform
perform-HasTerms id c (initialize_call env admin) s n h =
    settle_keeps (HasTerms id c) s (initialize env admin s) h (λ v s' q.
      let (_, e) = initialize-Becomes env admin s s' q in
      same-HasTerms id c s s' h (ap (λ (x : State). x.campaigns) e))
perform-HasTerms id c (create_call env creator title goal deadline) s n h = absurd (ground arith)
perform-HasTerms id c (donate_call env donor j amount asset memo) s n h =
    settle_keeps (HasTerms id c) s (donate env donor j amount asset memo s) h (λ v s' q.
      let (d, may, e) = donate-Becomes env donor j amount asset memo s s' q in
      raise-HasTerms id j c d (wrap_i128 (d.raised +ℤ net_of amount)) s s' h may.stored
        (ap (λ (x : State). x.campaigns) e))
perform-HasTerms id c (withdraw_call env creator j recipient amount) s n h =
    settle_keeps (HasTerms id c) s (withdraw env creator j recipient amount s) h (λ v s' q.
      let (_, e) = withdraw-Becomes env creator j recipient amount s s' q in
      same-HasTerms id c s s' h (ap (λ (x : State). x.campaigns) e))
perform-HasTerms id c (approve_call env admin j) s n h =
    settle_keeps (HasTerms id c) s (approve_withdrawal env admin j s) h (λ v s' q.
      let (r, may, e, _) = approve_withdrawal-Becomes env admin j s v s' q in
      raise-HasTerms id j c may.campaign (wrap_i128 (may.campaign.raised -ℤ r.amount)) s s' h
        may.stored (ap (λ (x : State). x.campaigns) e))
perform-HasTerms id c (submit_call env admin j) s n h =
    settle_keeps (HasTerms id c) s (submit_transaction env admin j s) h (λ v s' q.
      let (_, _, e, _) = submit_transaction-Becomes env admin j s v s' q in
      same-HasTerms id c s s' h (ap (λ (x : State). x.campaigns) e))

run-HasTerms :
    (cs : List Call) (id : ℕ) (c : Campaign) (s : State)
    → any creates cs ≡ false
    → HasTerms id c s
    → HasTerms id c (run cs s)
unfolding run
run-HasTerms [] id c s n h = h
run-HasTerms (call ∷ cs) id c s n h =
    run-HasTerms cs id c (perform call s) (ground arith)
      (perform-HasTerms id c call s (ground arith) h)

-- After a creation that returned an identifier, and any calls that create no campaign, initializations
-- included, whether they succeed or fail, the campaign is stored under the identifier with the title,
-- the goal and the deadline it was created with, its creator, its identifier and the flag active; only
-- what it raised can have changed.
pub create_campaign-run :
    (env : Env) (creator : Address) (title : Symbol) (goal : ℤ) (deadline : ℕ) (s : State) (id : ℕ)
    (s' : State) (cs : List Call)
    → create_campaign env creator title goal deadline s ≡ ok (id, s')
    → any creates cs ≡ false
    → (c : Campaign) × ((run cs s').campaigns id ≡ some c)
      × (c ≡ record {
        id = id;
        creator = creator;
        title = title;
        goal = goal;
        raised = c.raised;
        deadline = deadline;
        active = true;
      })
create_campaign-run env creator title goal deadline s id s' cs h n =
    let (_, new, e) = create_campaign-Becomes env creator title goal deadline s id s' h in
    let c : Campaign = record {
      id = id;
      creator = creator;
      title = title;
      goal = goal;
      raised = pos 0;
      deadline = deadline;
      active = true;
    } in
    let stored = ap (λ (x : State). x.campaigns id) e in
    run-HasTerms cs id c s' n (c, ground (arith, stored, new), refl)
