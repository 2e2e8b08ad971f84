-- ===== src/Effects/MultiRelease.antt =====
-- `release_milestone_multi_asset` of campaign/src/multi_asset_release.rs: what a call that returns has
-- checked, paid and changed.
mod Parts
pub use Parts.{MultiReleasable, SharePaid, Turn, Turns}
use orbit_chain_contracts.Common.{
  ℕ, ◌+◌, ℤ, pos, ◌≡◌, ◌≢◌, inl, inr, refl, ap, ◌∙◌, true, false, Option, none, some, List, [], ◌∷◌,
  arith, unwrap_or, update, ltb_ℤ, leb_ℤ, eqb_ℤ, ◌-ℤ◌, ◌+ℤ◌, checked_sub, checked_add,
  checked_add-eq, Option-cases, Bool-cases, ◌==◌,
}
use orbit_chain_contracts.Types.{
  Address, StellarAsset, CampaignData, MilestoneData, released, unlocked, DataKey, overflow,
}
use orbit_chain_contracts.Host.{Env, State, ok, or_panic}
use orbit_chain_contracts.Host.Inversion.{>>=-eq-ok}
use orbit_chain_contracts.Storage.{milestone_at, set_milestone, bump_persistent}
use orbit_chain_contracts.MultiRelease.{
  compute_asset_release, settle, release_asset, release_assets, multi_checks, close_release,
  release_milestone_multi_asset,
}
use orbit_chain_contracts.MilestoneStore.Access.{Writes}
use orbit_chain_contracts.Effects.Steps.{write_lem, or_panic-ok}
use orbit_chain_contracts.Effects.Release.{is_unlocked-eq, min_covered}
use orbit_chain_contracts.Effects.MultiRelease.Parts.{
  multi_checks_lem, release_assets-Turns, Turns-TurnsOnly, TurnsOnly,
}

module _ {T : Type 0} (env : Env T) (i : ℕ) (recipient : Address) where
  close_release_lem :
      (total_raised total : ℤ) (s : State T) {s' : State T}
      → close_release env total_raised total s ≡ ok (tt, s')
      → (leb_ℤ (pos 0) (total_raised -ℤ total) ≡ true)
        × (s' ≡ record s {
          total_raised = some (total_raised -ℤ total);
          release_count = some (unwrap_or s.release_count 0 + 1);
          reentrancy_lock = none;
          events = s'.events;
          ttl_calls = s'.ttl_calls;
        })
  unfolding close_release
  close_release_lem total_raised total s h = ground arith

  abbrev pub released_by : MilestoneData → ℤ → MilestoneData
  released_by m new_released = record m { released_amount = new_released; status = released }

  -- All that the release does to the state.
  pub record MultiReleased (s s' : State T) : Type 0 where
    pub campaign : CampaignData
    pub milestone : MilestoneData
    pub total_before : ℤ
    pub amount : ℤ
    pub paid : ℤ
    pub paid_from : State T
    pub paid_to : State T
    pub releasable : MultiReleasable env i recipient s campaign milestone total_before amount
    pub turns :
        Turns env i recipient amount total_before campaign.accepted_assets
          (pos 0)
          paid
          paid_from
          paid_to
    pub starts : (paid_from.tokens ≡ s.tokens) × (paid_from.asset_raised ≡ s.asset_raised)
    pub ends : (s'.tokens ≡ paid_to.tokens) × (s'.asset_raised ≡ paid_to.asset_raised)
    pub enough : leb_ℤ (pos 0) (total_before -ℤ paid) ≡ true
    pub written :
        milestone_at s' i ≡ some (released_by milestone (milestone.released_amount +ℤ amount))
    pub others : (j : ℕ) → i ≢ j → milestone_at s' j ≡ milestone_at s j
    pub state_after : s' ≡ record s {
      milestones_vec = s'.milestones_vec;
      milestone_data = s'.milestone_data;
      asset_raised = s'.asset_raised;
      total_raised = some (total_before -ℤ paid);
      release_count = some (unwrap_or s.release_count 0 + 1);
      reentrancy_lock = none;
      tokens = s'.tokens;
      events = s'.events;
      ttl_calls = s'.ttl_calls;
    }

  join_multi :
      (c : CampaignData) (m : MilestoneData) (total_raised amount new_released paid : ℤ)
      (s s₁ s₂ s₃ s₄ s' : State T)
      → MultiReleasable env i recipient s c m total_raised amount
        × (s₁ ≡ record s { reentrancy_lock = some true; ttl_calls = s₁.ttl_calls })
      → (checked_add m.released_amount amount ≡ some new_released) × (s₂ ≡ s₁)
      → Writes i (released_by m new_released) s₂ s₃
      → Turns env i recipient amount total_raised c.accepted_assets (pos 0) paid s₃ s₄
      → TurnsOnly env i recipient s₃ s₄
      → (leb_ℤ (pos 0) (total_raised -ℤ paid) ≡ true)
        × (s' ≡ record s₄ {
          total_raised = some (total_raised -ℤ paid);
          release_count = some (unwrap_or s₄.release_count 0 + 1);
          reentrancy_lock = none;
          events = s'.events;
          ttl_calls = s'.ttl_calls;
        })
      → MultiReleased s s'
  join_multi c m total_raised amount new_released paid s s₁ s₂ s₃ s₄ s' f₁ f₂ w turns f₄ f₅ =
      record {
        campaign = c;
        milestone = m;
        total_before = total_raised;
        amount = amount;
        paid = paid;
        paid_from = s₃;
        paid_to = s₄;
        releasable = f₁.0;
        turns = turns;
        starts = let g = w.frame in (ground arith, ground arith);
        ends = (ground arith, ground arith);
        enough = f₅.0;
        written =
            ap (entry_of i) f₅.1
            ∙ (ap (entry_of i) f₄
                ∙ (w.at_index
                    ∙ ap (λ v. some (released_by m v))
                        (checked_add-eq m.released_amount amount new_released f₂.0)));
        others = λ j ne.
            ap (entry_of j) f₅.1
            ∙ (ap (entry_of j) f₄
                ∙ (w.elsewhere j ne ∙ (ap (entry_of j) f₂.1 ∙ ap (entry_of j) f₁.1)));
        state_after = let g = w.frame in ground arith;
      }
    where
      entry_of : ℕ → State T → Option MilestoneData
      entry_of j v = milestone_at v j

  -- A release in every asset that returns found the campaign stored, the lock free, the milestone
  -- unlocked, a total raised and an amount due that are not 0, and a recipient that is not the
  -- contract. Asset by asset it paid the floor of the exact share, the asset's account times the
  -- amount due divided by the total raised, which the contract held, and took the payment from the
  -- account; nothing is paid of an asset without issuer, with an exact share below one unit, with an
  -- account, amount or total that is not positive, or with a product beyond the range of an i128;
  -- the total raised falls by exactly the sum of the payments and stays 0 or more. The milestone
  -- reads back as released with the amount added, every other milestone as before, the releases are
  -- counted, the lock is free, and no other entry of storage changes.
  pub release_milestone_multi_asset-MultiReleased :
      (s : State T) {s' : State T}
      → release_milestone_multi_asset env i recipient s ≡ ok (tt, s')
      → MultiReleased s s'
  unfolding release_milestone_multi_asset
  release_milestone_multi_asset-MultiReleased s {s'} h =
      let x₁ = >>=-eq-ok (multi_checks env i recipient) _ s h in
      let (c, m, total_raised, amount) = x₁.value in
      let f₁ = multi_checks_lem env i recipient s x₁.first in
      let x₂ =
        >>=-eq-ok (or_panic (checked_add m.released_amount amount) overflow) _ x₁.state
          x₁.then_rest in
      let f₂ = or_panic-ok (checked_add m.released_amount amount) overflow x₁.state x₂.first in
      let x₃ = >>=-eq-ok (set_milestone i (released_by m x₂.value)) _ x₂.state x₂.then_rest in
      let w = write_lem i (released_by m x₂.value) x₂.state x₃.first in
      let x₄ =
        >>=-eq-ok (release_assets env i recipient amount total_raised c.accepted_assets (pos 0)) _
          x₃.state x₃.then_rest in
      let turns =
        release_assets-Turns env i recipient amount total_raised c.accepted_assets (pos 0) x₃.state
          x₄.first in
      join_multi c m total_raised amount x₂.value x₄.value s x₁.state x₂.state x₃.state x₄.state s'
        f₁ f₂ w turns
        (Turns-TurnsOnly env i recipient amount total_raised c.accepted_assets (pos 0) x₄.value
          x₃.state x₄.state turns)
        (close_release_lem total_raised x₄.value x₄.state x₄.then_rest)
