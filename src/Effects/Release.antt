-- ===== src/Effects/Release.antt =====
-- `release_milestone` of campaign/src/release_milestone.rs: what a call that returns has checked, paid
-- and changed.
mod Parts
pub use Parts.{
  PreviousReleased, Releasable, PaidOut, Primary, is_released-eq, is_unlocked-eq, min_covered,
}
use orbit_chain_contracts.Common.{
  ℕ, zero, suc, ◌+◌, ℤ, pos, ◌≡◌, ◌≢◌, ◌⊎◌, inl, inr, refl, sym, ap, ◌∙◌, subst, Bool, true, false,
  ◌&&◌, Option, none, some, List, [], ◌∷◌, arith, unwrap_or, update, ltb_ℤ, leb_ℤ, min_ℤ,
  checked_sub, Option-cases, Bool-cases, if◌then◌else◌,
}
use orbit_chain_contracts.Types.{
  Address, Error, StellarAsset, CampaignData, MilestoneData, MilestoneStatus, released, unlocked,
  locked, is_released, is_unlocked, DataKey, overflow, not_initialized,
}
use orbit_chain_contracts.Host.{Env, Event, State, ok, or_panic, ◌>>=◌, ◌>>◌}
use orbit_chain_contracts.Host.Inversion.{Result-cases, >>=-eq-ok}
use orbit_chain_contracts.Storage.{
  milestone_at, entry_at, set_milestone, release_lock, storage_increment_release_count,
  get_milestone,
}
use orbit_chain_contracts.Reports.{refresh_report_cache}
use orbit_chain_contracts.Release.{
  first, check_previous, release_checks, pay_token, pay_primary, released_milestone,
  release_milestone,
}
use orbit_chain_contracts.MilestoneStore.Access.{Writes}
use orbit_chain_contracts.Effects.Steps.{increment_lem, release_lock_lem, write_lem, or_panic-ok}
use orbit_chain_contracts.Effects.Release.Parts.{release_checks_lem, pay_primary_lem}

module _ {T : Type 0} (env : Env T) (i : ℕ) (recipient : Address) where
  -- All that a release does to the state.
  pub record Released (s s' : State T) : Type 0 where
    pub campaign : CampaignData
    pub milestone : MilestoneData
    pub amount : ℤ
    pub asset : StellarAsset
    pub releasable : Releasable i s campaign milestone
    pub amount_is : checked_sub milestone.target_amount milestone.released_amount ≡ some amount
    pub asset_is : first campaign.accepted_assets ≡ some asset
    pub paid_from : State T
    pub paid_to : State T
    pub paid : Primary env amount recipient asset.issuer paid_from paid_to
    pub starts : paid_from.tokens ≡ s.tokens
    pub ends : paid_to.tokens ≡ s'.tokens
    pub written : milestone_at s' i ≡ some (released_milestone env recipient milestone)
    pub others : (j : ℕ) → i ≢ j → milestone_at s' j ≡ milestone_at s j
    pub state_after : s' ≡ record s {
      milestones_vec = s'.milestones_vec;
      milestone_data = s'.milestone_data;
      release_count = some (unwrap_or s.release_count 0 + 1);
      reentrancy_lock = none;
      tokens = s'.tokens;
      events = s'.events;
      ttl_calls = s'.ttl_calls;
    }

  Primary-frame :
      (amount : ℤ) (issuer : Option Address) (s s' : State T)
      → Primary env amount recipient issuer s s'
      → s' ≡ record s { tokens = s'.tokens; events = s'.events }
  Primary-frame amount none s s' same = ground arith
  Primary-frame amount (some token) s s' (inl paid) = paid.frame
  Primary-frame amount (some token) s s' (inr (_, same)) = ground arith

  join_release :
      (c : CampaignData) (m : MilestoneData) (amount : ℤ) (asset : StellarAsset)
      (s s₁ s₂ s₃ s₄ s₅ s₆ s' : State T)
      → Releasable i s c m
        × (s₁ ≡ record s { reentrancy_lock = some true; ttl_calls = s₁.ttl_calls })
      → (checked_sub m.target_amount m.released_amount ≡ some amount) × (s₂ ≡ s₁)
      → (first c.accepted_assets ≡ some asset) × (s₃ ≡ s₂)
      → Primary env amount recipient asset.issuer s₃ s₄
      → s₄ ≡ record s₃ { tokens = s₄.tokens; events = s₄.events }
      → Writes i (released_milestone env recipient m) s₄ s₅
      → s₆ ≡ record s₅ {
        release_count = some (unwrap_or s₅.release_count 0 + 1);
        ttl_calls = s₆.ttl_calls;
      }
      → s' ≡ record s₆ { reentrancy_lock = none; events = s'.events }
      → Released s s'
  join_release c m amount asset s s₁ s₂ s₃ s₄ s₅ s₆ s' f₁ f₂ f₃ pays f₄ w f₆ f₇ = record {
    campaign = c;
    milestone = m;
    amount = amount;
    asset = asset;
    releasable = f₁.0;
    amount_is = f₂.0;
    asset_is = f₃.0;
    paid_from = s₃;
    paid_to = s₄;
    paid = pays;
    starts = ground arith;
    ends = let g = w.frame in ground arith;
    written = kept_until_end i ∙ w.at_index;
    others = λ j ne. kept_until_end j ∙ (w.elsewhere j ne ∙ kept_from_start j);
    state_after = let g = w.frame in ground arith;
  }
    where
      entry_of : ℕ → State T → Option MilestoneData
      entry_of j w = milestone_at w j

      kept_until_end : (j : ℕ) → milestone_at s' j ≡ milestone_at s₅ j
      kept_until_end j = ap (entry_of j) f₇ ∙ ap (entry_of j) f₆

      kept_from_start : (j : ℕ) → milestone_at s₄ j ≡ milestone_at s j
      kept_from_start j =
          ap (entry_of j) f₄
          ∙ (ap (entry_of j) f₃.1 ∙ (ap (entry_of j) f₂.1 ∙ ap (entry_of j) f₁.1))

  pub release_milestone-Released :
      (s : State T) {s' : State T}
      → release_milestone env i recipient s ≡ ok (tt, s')
      → Released s s'
  unfolding release_milestone
  release_milestone-Released s {s'} h =
      let x₁ = >>=-eq-ok (release_checks env i) _ s h in
      let (c, m) = x₁.value in
      let f₁ = release_checks_lem env i s x₁.first in
      let x₂ =
        >>=-eq-ok (or_panic (checked_sub m.target_amount m.released_amount) overflow) _ x₁.state
          x₁.then_rest in
      let f₂ =
        or_panic-ok (checked_sub m.target_amount m.released_amount) overflow x₁.state x₂.first in
      let x₃ =
        >>=-eq-ok (or_panic (first c.accepted_assets) not_initialized) _ x₂.state x₂.then_rest in
      let f₃ = or_panic-ok (first c.accepted_assets) not_initialized x₂.state x₃.first in
      let asset = x₃.value in
      let x₄ =
        >>=-eq-ok (pay_primary env i recipient x₂.value asset asset.issuer) _ x₃.state
          x₃.then_rest in
      let f₄ = pay_primary_lem env i recipient x₂.value asset asset.issuer x₃.state x₄.first in
      let x₅ =
        >>=-eq-ok (set_milestone i (released_milestone env recipient m)) _ x₄.state x₄.then_rest in
      let w = write_lem i (released_milestone env recipient m) x₄.state x₅.first in
      let x₆ = >>=-eq-ok storage_increment_release_count _ x₅.state x₅.then_rest in
      join_release c m x₂.value asset s x₁.state x₂.state x₃.state x₄.state x₅.state x₆.state s' f₁
        f₂ f₃ f₄ (Primary-frame x₂.value asset.issuer x₃.state x₄.state f₄) w
        (increment_lem x₅.state x₆.first) (release_lock_lem x₆.state x₆.then_rest)
