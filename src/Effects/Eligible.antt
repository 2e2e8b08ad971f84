-- ===== src/Effects/Eligible.antt =====
-- `is_refund_eligible` and `claim_refund` of campaign/src/lib.rs agree.
use orbit_chain_contracts.Common.{
  ℕ, zero, suc, ◌≡◌, refl, sym, ap, ◌∙◌, Bool, true, false, Option, none, some, arith, leb, is_none,
  ◌↔◌, wrapping_add_u64,
}
use orbit_chain_contracts.Types.{
  Error, Address, CampaignData, CampaignStatus, DonorRecord, cancelled, ended, DataKey,
}
use orbit_chain_contracts.Host.{Env, State, Result, ok, err, pure, ◌>>=◌}
use orbit_chain_contracts.Host.Inversion.{>>=-eq-ok}
use orbit_chain_contracts.Storage.{bump_persistent}
use orbit_chain_contracts.Validation.{released_among, check_refund_eligibility, refund_window}
use orbit_chain_contracts.Contract.{is_refund_eligible}
use orbit_chain_contracts.Effects.Refund.{NoneReleased, StatusAllows, check_refund_eligibility_lem}

none_of : (o : Option Error) → is_none o ≡ true → o ≡ none
none_of none h = refl
none_of (some e) h = absurd (ground arith)

module _ {T : Type 0} where
  none_among :
      (i n : ℕ) (s : State T)
      → NoneReleased s.milestones_vec s.milestone_data i n
      → (s' : State T) × (released_among i n s ≡ ok (false, s'))
  unfolding released_among
  none_among i zero s h = (s, refl)
  none_among i (suc n) s (h, rest) =
      let (s', e) = none_among (suc i) n (bump_persistent DataKey.milestones_vec s) rest in
      (s', ground arith)

  check_allows :
      (st : CampaignStatus) (env : Env T) (c : CampaignData) (r : DonorRecord) (s : State T)
      → c.status ≡ st
      → StatusAllows s.milestones_vec s.milestone_data st c.milestone_count
      → leb env.timestamp (wrapping_add_u64 c.end_time refund_window) ≡ true
      → r.refund_claimed ≡ false
      → (s' : State T) × (check_refund_eligibility env c r s ≡ ok (none, s'))
  unfolding check_refund_eligibility
  check_allows cancelled env c r s e a w k = (s, ground arith)
  check_allows ended env c r s e a w k =
      let (s', f) = none_among 0 c.milestone_count s a in (s', ground arith)
  check_allows _ env c r s e a w k = absurd a

  abbrev loaded : Address → State T → State T
  loaded donor s =
      bump_persistent (DataKey.donor_data donor) (bump_persistent DataKey.campaign_data s)

  is_refund_eligible-loaded :
      (env : Env T) (donor : Address) (c : CampaignData) (r : DonorRecord) (s : State T)
      → s.campaign_data ≡ some c
      → s.donor_data donor ≡ some r
      → is_refund_eligible env donor s
        ≡ (check_refund_eligibility env c r >>= λ e. pure (is_none e)) (loaded donor s)
  unfolding is_refund_eligible
  is_refund_eligible-loaded env donor c r s h k = ground arith

  answer :
      (e : Option Error) (b : Bool) (s s' : State T)
      → pure (is_none e) s ≡ ok (b, s')
      → is_none e ≡ b
  answer e b s s' h = ground arith

  -- Whether a donor with a record may claim a refund of a stored campaign.
  pub record MayClaim (env : Env T) (c : CampaignData) (r : DonorRecord) (s : State T)
      : Type 0 where
    pub status : StatusAllows s.milestones_vec s.milestone_data c.status c.milestone_count
    pub in_window : leb env.timestamp (wrapping_add_u64 c.end_time refund_window) ≡ true
    pub unclaimed : r.refund_claimed ≡ false

  -- On a stored campaign and a donor with a record, the view answers that the donor is eligible
  -- exactly where the campaign is cancelled, or ended with no milestone released (whether or not it
  -- reached its goal), the (wrapped) end of the window is not past and the donor has not claimed.
  pub is_refund_eligible_iff :
      (env : Env T) (donor : Address) (c : CampaignData) (r : DonorRecord) (s : State T)
      → s.campaign_data ≡ some c
      → s.donor_data donor ≡ some r
      → ((s' : State T) × (is_refund_eligible env donor s ≡ ok (true, s'))) ↔ MayClaim env c r s
  unfolding bump_persistent
  is_refund_eligible_iff env donor c r s h k =
      let same = is_refund_eligible-loaded env donor c r s h k in
      (
        λ (s', e).
            let x =
              >>=-eq-ok (check_refund_eligibility env c r) _ (loaded donor s) (sym same ∙ e) in
            let passed = none_of x.value (answer x.value true x.state s' x.then_rest) in
            let (_, status, window, unclaimed) =
              check_refund_eligibility_lem env c r (loaded donor s)
                (x.first ∙ ap (λ (o : Option Error). ok (o, x.state)) passed) in
            record { status = status; in_window = window; unclaimed = unclaimed },
        λ m.
            let (s', e) =
              check_allows c.status env c r (loaded donor s) refl m.status m.in_window
                m.unclaimed in
            (s', same ∙ ap (continue_with (λ o. is_none o)) e),
      )
    where
      continue_with :
          (Option Error → Bool) → Result (Option Error × State T) → Result (Bool × State T)
      continue_with f (ok (o, t)) = ok (f o, t)
      continue_with f (err x) = err x
