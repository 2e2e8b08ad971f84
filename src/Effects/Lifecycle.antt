-- ===== src/Effects/Lifecycle.antt =====
-- `end_campaign`, `cancel_campaign` and `extend_deadline` of campaign/src/lib.rs and
-- campaign/src/contract.rs: what a call that returns has checked and changed.
use orbit_chain_contracts.Common.{
  ℕ, ◌≡◌, true, false, none, some, arith, unwrap_or, ltb, leb, saturating_add_u64, Option-cases,
  inl, inr,
}
use orbit_chain_contracts.Types.{CampaignData, CampaignStatus, ended, cancelled, accepts_donations}
use orbit_chain_contracts.Host.{Env, State, ok}
use orbit_chain_contracts.Host.Inversion.{>>=-eq-ok}
use orbit_chain_contracts.Validation.{validate_campaign_transition}
use orbit_chain_contracts.Lifecycle
use orbit_chain_contracts.Lifecycle.{max_deadline_gap_seconds}
use orbit_chain_contracts.Contract
use orbit_chain_contracts.Effects.Report.{report_value, refresh_report_cache_lem, CacheOnly}

-- The creator's tests, on the state before the call.
pub record ByCreator {T : Type 0} (env : Env T) (s : State T) (c : CampaignData) : Type 0 where
  pub stored : s.campaign_data ≡ some c
  pub authorized : env.authorized c.creator ≡ true
  pub not_frozen : unwrap_or s.frozen false ≡ false

-- The campaign becomes `c'`, the report is fresh, and no other entry of storage changes.
pub record Becomes {T : Type 0} (c' : CampaignData) (s s' : State T) : Type 0 where
  pub report_after : s'.cached_report ≡ some (report_value s' c')
  pub state_after : s' ≡ record s {
    campaign_data = some c';
    cached_report = s'.cached_report;
    events = s'.events;
    ttl_calls = s'.ttl_calls;
  }

abbrev pub concluded : CampaignData → CampaignStatus → ℕ → CampaignData
concluded c st ledger = record c { status = st; concluded_at_ledger = some ledger }

abbrev pub with_end_time : CampaignData → ℕ → CampaignData
with_end_time c t = record c { end_time = t }

module _ {T : Type 0} where
  refreshed-Becomes :
      (c' : CampaignData) (s s₁ s' : State T)
      → s₁ ≡ record s { campaign_data = some c'; events = s₁.events; ttl_calls = s₁.ttl_calls }
      → (s'.cached_report ≡ some (report_value s₁ c')) × CacheOnly s₁ s'
      → Becomes c' s s'
  unfolding report_value
  refreshed-Becomes c' s s₁ s' f₁ f₂ = record {
    report_after = ground arith;
    state_after = ground arith;
  }

  campaign_after :
      (c' : CampaignData) (s s₁ : State T)
      → s₁ ≡ record s { campaign_data = some c'; events = s₁.events; ttl_calls = s₁.ttl_calls }
      → s₁.campaign_data ≡ some c'
  campaign_after c' s s₁ f = ground arith

module _ {T : Type 0} (env : Env T) where
  end_lem :
      (s : State T) {s' : State T}
      → Lifecycle.end_campaign env s ≡ ok (tt, s')
      → (c : CampaignData) × ByCreator env s c
        × (validate_campaign_transition c.status ended ≡ none)
        × (s' ≡ record s {
          campaign_data = some (concluded c ended env.sequence);
          events = s'.events;
          ttl_calls = s'.ttl_calls;
        })
  unfolding Lifecycle.end_campaign
  end_lem s h = elim (Option-cases s.campaign_data) [
    | inl e ↦ absurd (ground arith)
    | inr (c, e) ↦ (
      c,
      record { stored = e; authorized = ground arith; not_frozen = ground arith },
      ground arith,
      ground arith,
    )
  ]

  cancel_lem :
      (s : State T) {s' : State T}
      → Lifecycle.cancel_campaign env s ≡ ok (tt, s')
      → (c : CampaignData) × ByCreator env s c
        × (validate_campaign_transition c.status cancelled ≡ none)
        × (s' ≡ record s {
          campaign_data = some (concluded c cancelled env.sequence);
          events = s'.events;
          ttl_calls = s'.ttl_calls;
        })
  unfolding Lifecycle.cancel_campaign
  cancel_lem s h = elim (Option-cases s.campaign_data) [
    | inl e ↦ absurd (ground arith)
    | inr (c, e) ↦ (
      c,
      record { stored = e; authorized = ground arith; not_frozen = ground arith },
      ground arith,
      ground arith,
    )
  ]

  extend_lem :
      (t : ℕ) (s : State T) {s' : State T}
      → Lifecycle.extend_deadline env t s ≡ ok (tt, s')
      → (c : CampaignData) × ByCreator env s c
        × (accepts_donations c.status ≡ true)
        × (ltb env.timestamp t ≡ true)
        × (leb t (saturating_add_u64 env.timestamp max_deadline_gap_seconds) ≡ true)
        × (s' ≡ record s {
          campaign_data = some (with_end_time c t);
          events = s'.events;
          ttl_calls = s'.ttl_calls;
        })
  unfolding Lifecycle.extend_deadline
  extend_lem t s h = elim (Option-cases s.campaign_data) [
    | inl e ↦ absurd (ground arith)
    | inr (c, e) ↦ (
      c,
      record { stored = e; authorized = ground arith; not_frozen = ground arith },
      ground arith,
      ground arith,
      ground arith,
      ground arith,
    )
  ]

  -- The call of the creator succeeds and concludes the campaign as `st`.
  pub record Concluded (st : CampaignStatus) (s s' : State T) : Type 0 where
    pub campaign : CampaignData
    pub by_creator : ByCreator env s campaign
    pub allowed : validate_campaign_transition campaign.status st ≡ none
    pub becomes : Becomes (concluded campaign st env.sequence) s s'

  pub record Extended (t : ℕ) (s s' : State T) : Type 0 where
    pub campaign : CampaignData
    pub by_creator : ByCreator env s campaign
    pub open_status : accepts_donations campaign.status ≡ true
    pub later : ltb env.timestamp t ≡ true
    pub soon_enough : leb t (saturating_add_u64 env.timestamp max_deadline_gap_seconds) ≡ true
    pub becomes : Becomes (with_end_time campaign t) s s'

  -- An end that returns was authorized by the creator of a contract that is not frozen, from a status
  -- that the rules allow to become ended; the campaign is ended at this ledger, the report is fresh,
  -- and no other entry of storage changes.
  pub end_campaign-Concluded :
      (s : State T) {s' : State T}
      → Contract.end_campaign env s ≡ ok (tt, s')
      → Concluded ended s s'
  unfolding Contract.end_campaign
  end_campaign-Concluded s {s'} h =
      let x = >>=-eq-ok (Lifecycle.end_campaign env) _ s h in
      let (c, by, allowed, f) = end_lem s x.first in
      let c' = concluded c ended env.sequence in
      record {
        campaign = c;
        by_creator = by;
        allowed = allowed;
        becomes =
            refreshed-Becomes c' s x.state s' f
              (refresh_report_cache_lem x.state c' (campaign_after c' s x.state f) x.then_rest);
      }

  -- A cancellation that returns was authorized by the creator of a contract that is not frozen, from a
  -- status that the rules allow to become cancelled; the campaign is cancelled at this ledger, the
  -- report is fresh, and no other entry of storage changes.
  pub cancel_campaign-Concluded :
      (s : State T) {s' : State T}
      → Contract.cancel_campaign env s ≡ ok (tt, s')
      → Concluded cancelled s s'
  unfolding Contract.cancel_campaign
  cancel_campaign-Concluded s {s'} h =
      let x = >>=-eq-ok (Lifecycle.cancel_campaign env) _ s h in
      let (c, by, allowed, f) = cancel_lem s x.first in
      let c' = concluded c cancelled env.sequence in
      record {
        campaign = c;
        by_creator = by;
        allowed = allowed;
        becomes =
            refreshed-Becomes c' s x.state s' f
              (refresh_report_cache_lem x.state c' (campaign_after c' s x.state f) x.then_rest);
      }

  -- A deadline that is extended lies after the time of the call and at most ten years (or the
  -- greatest time) after it; the creator of a campaign that is open and not frozen made the call,
  -- only the deadline of the campaign changes, and the report is fresh.
  pub extend_deadline-Extended :
      (t : ℕ) (s : State T) {s' : State T}
      → Contract.extend_deadline env t s ≡ ok (tt, s')
      → Extended t s s'
  unfolding Contract.extend_deadline
  extend_deadline-Extended t s {s'} h =
      let x = >>=-eq-ok (Lifecycle.extend_deadline env t) _ s h in
      let (c, by, open_status, later, soon, f) = extend_lem t s x.first in
      let c' = with_end_time c t in
      record {
        campaign = c;
        by_creator = by;
        open_status = open_status;
        later = later;
        soon_enough = soon;
        becomes =
            refreshed-Becomes c' s x.state s' f
              (refresh_report_cache_lem x.state c' (campaign_after c' s x.state f) x.then_rest);
      }
