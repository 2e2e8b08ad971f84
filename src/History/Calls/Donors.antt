-- ===== src/History/Calls/Donors.antt =====
-- The calls of donors and the ends of a campaign, of campaign/src/lib.rs: what they keep.
use orbit_chain_contracts.Common.{
  ℕ, ℤ, ◌≡◌, refl, sym, subst, true, Option, none, some, arith, unwrap_or, update, Bool-cases, inl,
  inr, ◌==◌,
}
use orbit_chain_contracts.Types.{
  Address, CampaignData, CampaignStatus, DonorRecord, MilestoneData, apply_donation, new_for,
  AssetInfo, is_released,
}
use orbit_chain_contracts.Host.{Env, State}
use orbit_chain_contracts.Storage.{milestone_at}
use orbit_chain_contracts.Validation.{is_released_entry}
use orbit_chain_contracts.Effects.Report.{report_value}
use orbit_chain_contracts.Effects.Donation.{Donated, with_donation}
use orbit_chain_contracts.Effects.Lifecycle.{concluded, with_end_time}
use orbit_chain_contracts.MilestoneStore.Kept.{milestone_at-unlock}
use orbit_chain_contracts.Effects.Refund.{Refunded, claimed}
use orbit_chain_contracts.Effects.Lifecycle.{Concluded, Extended}
use orbit_chain_contracts.History.Keeps.{
  Evolves, Keeps, Evolves-refl, raise-Evolves, conclude-Evolves, Becomes-Keeps, has_claimed,
}

-- A donation keeps the mark of a refund on the donor's record.
apply_donation-claimed :
    (o : Option DonorRecord) (d : Address) (amount : ℤ) (time ledger : ℕ) (a : AssetInfo)
    (r : DonorRecord)
    → apply_donation (unwrap_or o (new_for d a)) amount time ledger a ≡ some r
    → has_claimed o ≡ true
    → r.refund_claimed ≡ true
unfolding apply_donation
apply_donation-claimed none d amount time ledger a r h e = absurd (ground arith)
apply_donation-claimed (some x) d amount time ledger a r h e = ground arith

released_some :
    (o : Option MilestoneData)
    → is_released_entry o ≡ true
    → (m : MilestoneData) × (o ≡ some m) × (is_released m.status ≡ true)
released_some none h = absurd (ground arith)
released_some (some m) h = (m, refl, ground arith)

claims_update :
    (f : Address → Option DonorRecord) (k : Address) (r : DonorRecord) (d : Address)
    → (has_claimed (f k) ≡ true → r.refund_claimed ≡ true)
    → has_claimed (f d) ≡ true
    → has_claimed (update f k (some r) d) ≡ true
claims_update f k r d keep h = elim (Bool-cases (k == d)) [
  | inl same ↦
      let e : k ≡ d = ground arith in
      let kept = keep (subst (λ (j : Address). has_claimed (f j) ≡ true) (sym e) h) in ground arith
  | inr other ↦ ground arith
]

pub not_absent : (o : Option CampaignData) (c : CampaignData) → o ≡ some c → o ≡ none → ⊥
not_absent o c p q = ground arith

stored_same : (o : Option CampaignData) (c d : CampaignData) → o ≡ some c → o ≡ some d → d ≡ c
stored_same o c d p q = ground arith

module _ {T : Type 0} where
  pub donate-Keeps :
      (env : Env T) (donor : Address) (amount : ℤ) (asset : AssetInfo) (c : CampaignData)
      (s s' : State T)
      → s.campaign_data ≡ some c
      → Donated env donor amount asset s s'
      → Keeps c s s'
  donate-Keeps env donor amount asset c s s' h x =
      let f = x.state_after in
      let same = stored_same s.campaign_data c x.campaign h x.admitted.stored in
      let entries : s'.milestone_data ≡ s.milestone_data = ground arith in
      let ev = raise-Evolves x.campaign amount x.admitted.large_enough x.admitted.open_status in
      record {
        later = with_donation x.campaign amount;
        stored = ground arith;
        evolves = subst (λ (k : CampaignData). Evolves k (with_donation x.campaign amount)) same ev;
        fresh = λ e. x.report_after;
        lock_free = λ e. ground arith;
        claims = λ d e.
            let kept =
              claims_update s.donor_data donor x.new_record d
                (apply_donation-claimed (s.donor_data donor) donor amount env.timestamp env.sequence
                  asset x.new_record x.applied)
                e in
            ground arith;
        releases = λ j e.
            let (m, at, r) = released_some (milestone_at s j) e in
            let kept =
              milestone_at-unlock (with_donation x.campaign amount).raised_amount s s' j m
                x.milestones_after entries at r in
            ground arith;
      }

  pub refund-Keeps :
      (env : Env T) (donor : Address) (c : CampaignData) (s s' : State T)
      → s.campaign_data ≡ some c
      → Refunded env donor s s'
      → Keeps c s s'
  refund-Keeps env donor c s s' h x =
      let f = x.state_after in
      let same = stored_same s.campaign_data c x.campaign h x.refundable.stored in
      record {
        later = c;
        stored = ground arith;
        evolves = Evolves-refl c;
        fresh = λ e.
            subst (λ (k : CampaignData). s'.cached_report ≡ some (report_value s' k)) same
              x.report_after;
        lock_free = λ e. ground arith;
        claims = λ d e.
            let kept = claims_update s.donor_data donor (claimed x.donor_record) d (λ _. refl) e in
            ground arith;
        releases = λ j e. ground arith;
      }

  pub Concluded-Keeps :
      (env : Env T) (st : CampaignStatus) (c : CampaignData) (s s' : State T)
      → s.campaign_data ≡ some c
      → Concluded env st s s'
      → Keeps c s s'
  Concluded-Keeps env st c s s' h x =
      let same = stored_same s.campaign_data c x.campaign h x.by_creator.stored in
      subst (λ (k : CampaignData). Keeps k s s') same
        (Becomes-Keeps x.campaign (concluded x.campaign st env.sequence) s s'
          (conclude-Evolves x.campaign st env.sequence x.allowed) x.becomes)

  pub Extended-Keeps :
      (env : Env T) (t : ℕ) (c : CampaignData) (s s' : State T)
      → s.campaign_data ≡ some c
      → Extended env t s s'
      → Keeps c s s'
  Extended-Keeps env t c s s' h x =
      let same = stored_same s.campaign_data c x.campaign h x.by_creator.stored in
      subst (λ (k : CampaignData). Keeps k s s') same
        (Becomes-Keeps x.campaign (with_end_time x.campaign t) s s'
          (record { others = refl; raised_grows = omega arith; status_order = omega arith })
          x.becomes)
