-- ===== src/History/Promises.antt =====
-- What holds over every history of calls of campaign/src/lib.rs.
use orbit_chain_contracts.Common.{
  ℕ, ◌≤◌, ℤ, ◌≡◌, ◌⊎◌, inl, inr, sym, ap, ◌∙◌, subst, true, false, Option, none, some, List, arith,
}
use orbit_chain_contracts.Types.{
  Address, AssetInfo, CampaignData, CampaignStatus, DonorRecord, MilestoneData, StellarAsset,
  accepts_donations, is_terminal, unlocked,
}
use orbit_chain_contracts.Host.{Env, State, ok}
use orbit_chain_contracts.Storage.{milestone_at}
use orbit_chain_contracts.Validation.{is_released_entry}
use orbit_chain_contracts.Contract
use orbit_chain_contracts.Contract.{new_campaign}
use orbit_chain_contracts.Effects.Report.{report_value, refresh_report_cache-CacheOnly}
use orbit_chain_contracts.Effects.Initialize.{initialize-Initialized}
use orbit_chain_contracts.Effects.Donation.{donate-Donated}
use orbit_chain_contracts.Effects.Refund.{claim_refund-Refunded, claimed_after}
use orbit_chain_contracts.Effects.Release.{release_milestone-Released}
use orbit_chain_contracts.Effects.MultiRelease.{release_milestone_multi_asset-MultiReleased}
use orbit_chain_contracts.Effects.Admin.{
  release_milestone-ThroughCreator, release_multi-ThroughCreator,
}
use orbit_chain_contracts.History.Step.{Step, Reach}
use orbit_chain_contracts.History.Keeps.{Evolves, has_claimed, rank}
use orbit_chain_contracts.History.Calls.{step-Keeps, reach-Keeps}

-- A release of a milestone by either entry point that returns.
abbrev pub ReleaseOf : {T : Type 0} → Env T → ℕ → Address → State T → State T → Type 0
ReleaseOf env i recipient s s' =
    (Contract.release_milestone env i recipient s ≡ ok (tt, s'))
    ⊎ (Contract.release_milestone_multi_asset env i recipient s ≡ ok (tt, s'))

claimed_twice :
    (o : Option DonorRecord) (r : DonorRecord)
    → o ≡ some r
    → has_claimed o ≡ true
    → r.refund_claimed ≡ false
    → ⊥
claimed_twice o r e h k = ground arith

released_twice :
    (o : Option MilestoneData) (m : MilestoneData)
    → o ≡ some m
    → is_released_entry o ≡ true
    → m.status ≡ unlocked
    → ⊥
released_twice o m e h k = ground arith

closed_accepts :
    (a b : CampaignStatus) → is_terminal a ≡ true → rank a ≤ rank b → accepts_donations b ≡ true → ⊥
closed_accepts a b h k e = ground arith

some_same : (o : Option CampaignData) (c d : CampaignData) → o ≡ some c → o ≡ some d → c ≡ d
some_same o c d p q = ground arith

module _ {T : Type 0} where
  -- A donor is refunded at most once: once a claim has returned, no claim by the same donor returns
  -- after any further calls, whatever their environments.
  pub claim_refund_once :
      (env later_env : Env T) (donor : Address) (s s' t : State T)
      → Contract.claim_refund env donor s ≡ ok (tt, s')
      → Reach s' t
      → (u : State T) → ¬ (Contract.claim_refund later_env donor t ≡ ok (tt, u))
  claim_refund_once env later_env donor s s' t h past u again =
      let x = claim_refund-Refunded env donor s h in
      let stored = ap (λ (w : State T). w.campaign_data) x.state_after ∙ x.refundable.stored in
      let keeps = reach-Keeps x.campaign s' t stored past in
      let marked = keeps.claims donor (ap has_claimed (claimed_after env donor s s' x)) in
      let y = claim_refund-Refunded later_env donor t again in
      claimed_twice (t.donor_data donor) y.donor_record y.refundable.known marked
        y.refundable.unclaimed

  read_entry :
      (j : ℕ) (s b : State T)
      → b ≡ record s { ttl_calls = b.ttl_calls }
      → milestone_at b j ≡ milestone_at s j
  read_entry j s b f = ap (λ (w : State T). milestone_at w j) f

  -- The milestone that a release names is unlocked before it, and the campaign is stored.
  release_needs :
      (env : Env T) (i : ℕ) (recipient : Address) (s s' : State T)
      → ReleaseOf env i recipient s s'
      → (m : MilestoneData) × (c : CampaignData) × (milestone_at s i ≡ some m)
        × (m.status ≡ unlocked)
        × (s.campaign_data ≡ some c)
  release_needs env i recipient s s' (inl h) =
      let x = release_milestone-ThroughCreator env i recipient s h in
      let y = release_milestone-Released env i recipient x.before x.released in
      (
        y.milestone,
        x.campaign,
        sym (read_entry i s x.before x.read) ∙ y.releasable.found,
        y.releasable.is_next,
        x.stored,
      )
  release_needs env i recipient s s' (inr h) =
      let x = release_multi-ThroughCreator env i recipient s h in
      let y = release_milestone_multi_asset-MultiReleased env i recipient x.before x.released in
      (
        y.milestone,
        x.campaign,
        sym (read_entry i s x.before x.read) ∙ y.releasable.found,
        y.releasable.is_next,
        x.stored,
      )

  release_marks :
      (env : Env T) (i : ℕ) (recipient : Address) (s s' : State T)
      → ReleaseOf env i recipient s s'
      → is_released_entry (milestone_at s' i) ≡ true
  release_marks env i recipient s s' (inl h) =
      let x = release_milestone-ThroughCreator env i recipient s h in
      let y = release_milestone-Released env i recipient x.before x.released in
      let f = refresh_report_cache-CacheOnly x.after x.refreshed in
      ap (λ (w : State T). is_released_entry (milestone_at w i)) f ∙ ap is_released_entry y.written
  release_marks env i recipient s s' (inr h) =
      let x = release_multi-ThroughCreator env i recipient s h in
      let y = release_milestone_multi_asset-MultiReleased env i recipient x.before x.released in
      let f = refresh_report_cache-CacheOnly x.after x.refreshed in
      ap (λ (w : State T). is_released_entry (milestone_at w i)) f ∙ ap is_released_entry y.written

  release_step :
      (env : Env T) (i : ℕ) (recipient : Address) (s s' : State T)
      → ReleaseOf env i recipient s s'
      → Step s s'
  release_step env i recipient s s' (inl h) = Step.release_milestone env i recipient h
  release_step env i recipient s s' (inr h) = Step.release_milestone_multi_asset env i recipient h

  -- A milestone is released at most once: once a release of it has returned, by either entry point,
  -- no release of it by either of them returns after any further calls, whatever their environments
  -- and recipients.
  pub release_once :
      (env later_env : Env T) (i : ℕ) (recipient later_recipient : Address) (s s' t : State T)
      → ReleaseOf env i recipient s s'
      → Reach s' t
      → (u : State T) → ¬ (ReleaseOf later_env i later_recipient t u)
  release_once env later_env i recipient later_recipient s s' t h past u again =
      let (_, c, _, _, stored) = release_needs env i recipient s s' h in
      let now = step-Keeps c s s' stored (release_step env i recipient s s' h) in
      let keeps = reach-Keeps now.later s' t now.stored past in
      let still = keeps.releases i (release_marks env i recipient s s' h) in
      let (m, _, found, is_next, _) = release_needs later_env i later_recipient t u again in
      released_twice (milestone_at t i) m found still is_next

  -- Over any calls the campaign stays stored; only what was raised, the deadline, the status and the
  -- ledger of its end change, what was raised never falls, and the status never goes back in the
  -- order active, goal reached, ended, cancelled.
  pub campaign-Evolves :
      (c : CampaignData) (s u : State T)
      → s.campaign_data ≡ some c
      → Reach s u
      → (later : CampaignData) × (u.campaign_data ≡ some later) × Evolves c later
  campaign-Evolves c s u h past = let x = reach-Keeps c s u h past in (x.later, x.stored, x.evolves)

  -- Once a campaign has ended or is cancelled, no donation returns after any further calls.
  pub closed_refuses_donations :
      (env : Env T) (donor : Address) (amount : ℤ) (asset : AssetInfo) (c : CampaignData)
      (s t : State T)
      → s.campaign_data ≡ some c
      → is_terminal c.status ≡ true
      → Reach s t
      → (u : State T) → ¬ (Contract.donate env donor amount asset t ≡ ok (tt, u))
  closed_refuses_donations env donor amount asset c s t h over past u given =
      let x = reach-Keeps c s t h past in
      let y = donate-Donated env donor amount asset t given in
      let same = some_same t.campaign_data x.later y.campaign x.stored y.admitted.stored in
      closed_accepts c.status x.later.status over x.evolves.status_order (
        subst (λ (k : CampaignData). accepts_donations k.status ≡ true) (sym same)
          y.admitted.open_status)

  -- From initialization on, after any calls, the cached report is the report of the current state.
  pub cached_report_current :
      (env : Env T) (creator : Address) (goal : ℤ) (end_time : ℕ) (assets : List StellarAsset)
      (ms : List MilestoneData) (min_donation : ℤ) (s s' u : State T)
      → Contract.initialize env creator goal end_time assets ms min_donation s ≡ ok (tt, s')
      → Reach s' u
      → (c : CampaignData) × (u.campaign_data ≡ some c)
        × (u.cached_report ≡ some (report_value u c))
  cached_report_current env creator goal end_time assets ms min_donation s s' u h past =
      let x = initialize-Initialized env creator goal end_time assets ms min_donation s h in
      let stored = ap (λ (w : State T). w.campaign_data) x.state_after in
      let keeps =
        reach-Keeps (new_campaign env creator goal end_time assets ms min_donation) s' u stored
          past in
      (keeps.later, keeps.stored, keeps.fresh x.report_after)

  -- After any calls from a state with a campaign and a free lock the lock is free: every call that
  -- returns has given it back.
  pub lock_given_back :
      (c : CampaignData) (s u : State T)
      → s.campaign_data ≡ some c
      → s.reentrancy_lock ≡ none
      → Reach s u
      → u.reentrancy_lock ≡ none
  lock_given_back c s u h free past = (reach-Keeps c s u h past).lock_free free
