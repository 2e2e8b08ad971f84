-- ===== src/History/Calls/Releases.antt =====
-- The releases of campaign/src/lib.rs: what they keep.
use orbit_chain_contracts.Common.{
  ℕ, ◌+◌, ℤ, ◌-ℤ◌, ◌≡◌, ◌≢◌, ap, ◌∙◌, subst, Bool, true, none, some, arith, unwrap_or, Bool-cases,
  inl, inr, ◌==◌,
}
use orbit_chain_contracts.Types.{Address, CampaignData}
use orbit_chain_contracts.Host.{Env, State, ok}
use orbit_chain_contracts.Storage.{milestone_at}
use orbit_chain_contracts.Validation.{is_released_entry}
use orbit_chain_contracts.Effects.Report.{report_value}
use orbit_chain_contracts.Reports.{refresh_report_cache}
use orbit_chain_contracts.Release
use orbit_chain_contracts.MultiRelease
use orbit_chain_contracts.Effects.Release.{release_milestone-Released}
use orbit_chain_contracts.Effects.MultiRelease.{release_milestone_multi_asset-MultiReleased}
use orbit_chain_contracts.Effects.Admin.{ThroughCreator}
use orbit_chain_contracts.Effects.Report.{refresh_report_cache_lem}
use orbit_chain_contracts.History.Keeps.{Keeps, Evolves-refl}

module _ {T : Type 0} where
  -- Some milestone is written as released; then the report is refreshed.
  release-Keeps :
      (i : ℕ) (c : CampaignData) (s b a s' : State T)
      → s.campaign_data ≡ some c
      → b ≡ record s { ttl_calls = b.ttl_calls }
      → a ≡ record b {
        milestones_vec = a.milestones_vec;
        milestone_data = a.milestone_data;
        asset_raised = a.asset_raised;
        total_raised = a.total_raised;
        release_count = a.release_count;
        reentrancy_lock = none;
        tokens = a.tokens;
        events = a.events;
        ttl_calls = a.ttl_calls;
      }
      → is_released_entry (milestone_at a i) ≡ true
      → ((j : ℕ) → i ≢ j → milestone_at a j ≡ milestone_at b j)
      → refresh_report_cache a ≡ ok (tt, s')
      → Keeps c s s'
  unfolding report_value
  release-Keeps i c s b a s' h f g written others refreshed =
      let stored : a.campaign_data ≡ some c = ground arith in
      let (cached, frame) = refresh_report_cache_lem a c stored refreshed in
      record {
        later = c;
        stored = ground arith;
        evolves = Evolves-refl c;
        fresh = λ e. ground arith;
        lock_free = λ e. ground arith;
        claims = λ d e. ground arith;
        releases = λ j e. ap (is_done j) frame ∙ kept j e;
      }
    where
      is_done : ℕ → State T → Bool
      is_done j v = is_released_entry (milestone_at v j)

      kept : (j : ℕ) → is_done j s ≡ true → is_done j a ≡ true
      kept j e = elim (Bool-cases (i == j)) [
        | inl same ↦ subst (λ (k : ℕ). is_done k a ≡ true) (ground arith) written
        | inr other ↦ ap is_released_entry (others j (ground arith)) ∙ (ap (is_done j) f ∙ e)
      ]

  pub single-Keeps :
      (env : Env T) (i : ℕ) (recipient : Address) (c : CampaignData) (s s' : State T)
      → s.campaign_data ≡ some c
      → ThroughCreator env (Release.release_milestone env i recipient) s s'
      → Keeps c s s'
  single-Keeps env i recipient c s s' h x =
      let y = release_milestone-Released env i recipient x.before x.released in
      release-Keeps i c s x.before x.after s' h x.read (widen x.before x.after y.state_after)
        (ap is_released_entry y.written) y.others x.refreshed
    where
      widen :
          (b a : State T)
          → a ≡ record b {
            milestones_vec = a.milestones_vec;
            milestone_data = a.milestone_data;
            release_count = some (unwrap_or b.release_count 0 + 1);
            reentrancy_lock = none;
            tokens = a.tokens;
            events = a.events;
            ttl_calls = a.ttl_calls;
          }
          → a ≡ record b {
            milestones_vec = a.milestones_vec;
            milestone_data = a.milestone_data;
            asset_raised = a.asset_raised;
            total_raised = a.total_raised;
            release_count = a.release_count;
            reentrancy_lock = none;
            tokens = a.tokens;
            events = a.events;
            ttl_calls = a.ttl_calls;
          }
      widen b a e = ground arith

  pub multi-Keeps :
      (env : Env T) (i : ℕ) (recipient : Address) (c : CampaignData) (s s' : State T)
      → s.campaign_data ≡ some c
      → ThroughCreator env (MultiRelease.release_milestone_multi_asset env i recipient) s s'
      → Keeps c s s'
  multi-Keeps env i recipient c s s' h x =
      let y = release_milestone_multi_asset-MultiReleased env i recipient x.before x.released in
      release-Keeps i c s x.before x.after s' h x.read
        (widen x.before x.after (y.total_before -ℤ y.paid) y.state_after)
        (ap is_released_entry y.written) y.others x.refreshed
    where
      widen :
          (b a : State T) (left : ℤ)
          → a ≡ record b {
            milestones_vec = a.milestones_vec;
            milestone_data = a.milestone_data;
            asset_raised = a.asset_raised;
            total_raised = some left;
            release_count = some (unwrap_or b.release_count 0 + 1);
            reentrancy_lock = none;
            tokens = a.tokens;
            events = a.events;
            ttl_calls = a.ttl_calls;
          }
          → a ≡ record b {
            milestones_vec = a.milestones_vec;
            milestone_data = a.milestone_data;
            asset_raised = a.asset_raised;
            total_raised = a.total_raised;
            release_count = a.release_count;
            reentrancy_lock = none;
            tokens = a.tokens;
            events = a.events;
            ttl_calls = a.ttl_calls;
          }
      widen b a left e = ground arith
