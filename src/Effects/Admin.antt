-- ===== src/Effects/Admin.antt =====
-- The operations of the administrator in campaign/src/lib.rs, and the authorized releases: what a
-- call that returns has checked and changed.
use orbit_chain_contracts.Common.{
  ℕ, ◌≡◌, true, false, Option, some, arith, unwrap_or, update, Option-cases, inl, inr,
}
use orbit_chain_contracts.Types.{Address, Hash, CampaignData, not_initialized}
use orbit_chain_contracts.Host.{Env, State, ok, or_panic, M, ⊤}
use orbit_chain_contracts.Host.Inversion.{>>=-eq-ok}
use orbit_chain_contracts.Storage.{get_campaign, bump_all_persistent_lem}
use orbit_chain_contracts.Effects.Steps.{or_panic-ok}
use orbit_chain_contracts.Reports.{refresh_report_cache}
use orbit_chain_contracts.Contract
use orbit_chain_contracts.Contract.{
  upgrade, freeze, unfreeze, block_asset, unblock_asset, bump_storage, authorize_creator,
}
use orbit_chain_contracts.Release
use orbit_chain_contracts.MultiRelease

-- The creator's authorization, and what the operation changes: `after` is the state but for events
-- and entry lifetimes.
pub record AdminCall {T : Type 0} (env : Env T) (after s s' : State T) : Type 0 where
  pub campaign : CampaignData
  pub stored : s.campaign_data ≡ some campaign
  pub authorized : env.authorized campaign.creator ≡ true
  pub state_after : s' ≡ record after { events = s'.events; ttl_calls = s'.ttl_calls }

module _ {T : Type 0} (env : Env T) where
  -- An upgrade that returns was authorized by the creator of a contract that is not frozen, and
  -- replaces the code alone.
  pub upgrade-AdminCall :
      (hash : Hash) (s : State T) {s' : State T}
      → upgrade env hash s ≡ ok (tt, s')
      → (unwrap_or s.frozen false ≡ false) × AdminCall env (record s { wasm_hash = some hash }) s s'
  unfolding upgrade
  upgrade-AdminCall hash s h = elim (Option-cases s.campaign_data) [
    | inl e ↦ absurd (ground arith)
    | inr (c, e) ↦ (
      ground arith,
      record { campaign = c; stored = e; authorized = ground arith; state_after = ground arith },
    )
  ]

  pub freeze-AdminCall :
      (s : State T) {s' : State T}
      → freeze env s ≡ ok (tt, s')
      → AdminCall env (record s { frozen = some true }) s s'
  unfolding freeze
  freeze-AdminCall s h = elim (Option-cases s.campaign_data) [
    | inl e ↦ absurd (ground arith)
    | inr (c, e) ↦ record {
      campaign = c;
      stored = e;
      authorized = ground arith;
      state_after = ground arith;
    }
  ]

  pub unfreeze-AdminCall :
      (s : State T) {s' : State T}
      → unfreeze env s ≡ ok (tt, s')
      → AdminCall env (record s { frozen = some false }) s s'
  unfolding unfreeze
  unfreeze-AdminCall s h = elim (Option-cases s.campaign_data) [
    | inl e ↦ absurd (ground arith)
    | inr (c, e) ↦ record {
      campaign = c;
      stored = e;
      authorized = ground arith;
      state_after = ground arith;
    }
  ]

  pub block_asset-AdminCall :
      (asset : Address) (s : State T) {s' : State T}
      → block_asset env asset s ≡ ok (tt, s')
      → AdminCall env (record s { blocked_asset = update s.blocked_asset asset (some true) }) s s'
  unfolding block_asset
  block_asset-AdminCall asset s h = elim (Option-cases s.campaign_data) [
    | inl e ↦ absurd (ground arith)
    | inr (c, e) ↦ record {
      campaign = c;
      stored = e;
      authorized = ground arith;
      state_after = ground arith;
    }
  ]

  pub unblock_asset-AdminCall :
      (asset : Address) (s : State T) {s' : State T}
      → unblock_asset env asset s ≡ ok (tt, s')
      → AdminCall env (record s { blocked_asset = update s.blocked_asset asset (some false) }) s s'
  unfolding unblock_asset
  unblock_asset-AdminCall asset s h = elim (Option-cases s.campaign_data) [
    | inl e ↦ absurd (ground arith)
    | inr (c, e) ↦ record {
      campaign = c;
      stored = e;
      authorized = ground arith;
      state_after = ground arith;
    }
  ]

  authorize_creator_lem :
      (s : State T) {s' : State T}
      → authorize_creator env s ≡ ok (tt, s')
      → (c : CampaignData) × (s.campaign_data ≡ some c)
        × (env.authorized c.creator ≡ true)
        × (s' ≡ record s { ttl_calls = s'.ttl_calls })
  unfolding authorize_creator
  authorize_creator_lem s h = elim (Option-cases s.campaign_data) [
    | inl e ↦ absurd (ground arith)
    | inr (c, e) ↦ (c, e, ground arith, ground arith)
  ]

  -- A release through the entry point: the creator authorized it, and between a change of entry
  -- lifetimes alone and a refresh of the report the release itself ran.
  pub record ThroughCreator (release : M T ⊤) (s s' : State T) : Type 0 where
    pub campaign : CampaignData
    pub stored : s.campaign_data ≡ some campaign
    pub authorized : env.authorized campaign.creator ≡ true
    pub before : State T
    pub after : State T
    pub read : before ≡ record s { ttl_calls = before.ttl_calls }
    pub released : release before ≡ ok (tt, after)
    pub refreshed : refresh_report_cache after ≡ ok (tt, s')

  pub release_milestone-ThroughCreator :
      (i : ℕ) (recipient : Address) (s : State T) {s' : State T}
      → Contract.release_milestone env i recipient s ≡ ok (tt, s')
      → ThroughCreator (Release.release_milestone env i recipient) s s'
  unfolding Contract.release_milestone
  release_milestone-ThroughCreator i recipient s h =
      let x = >>=-eq-ok (authorize_creator env) _ s h in
      let (c, stored, authorized, same) = authorize_creator_lem s x.first in
      let y = >>=-eq-ok (Release.release_milestone env i recipient) _ x.state x.then_rest in
      record {
        campaign = c;
        stored = stored;
        authorized = authorized;
        before = x.state;
        after = y.state;
        read = same;
        released = y.first;
        refreshed = y.then_rest;
      }

  pub release_multi-ThroughCreator :
      (i : ℕ) (recipient : Address) (s : State T) {s' : State T}
      → Contract.release_milestone_multi_asset env i recipient s ≡ ok (tt, s')
      → ThroughCreator (MultiRelease.release_milestone_multi_asset env i recipient) s s'
  unfolding Contract.release_milestone_multi_asset
  release_multi-ThroughCreator i recipient s h =
      let x = >>=-eq-ok (authorize_creator env) _ s h in
      let (c, stored, authorized, same) = authorize_creator_lem s x.first in
      let y =
        >>=-eq-ok (MultiRelease.release_milestone_multi_asset env i recipient) _ x.state
          x.then_rest in
      record {
        campaign = c;
        stored = stored;
        authorized = authorized;
        before = x.state;
        after = y.state;
        read = same;
        released = y.first;
        refreshed = y.then_rest;
      }

get_campaign_lem :
    {T : Type 0} (s : State T) {o : Option CampaignData} {s' : State T}
    → get_campaign s ≡ ok (o, s')
    → s' ≡ record s { ttl_calls = s'.ttl_calls }
unfolding get_campaign
get_campaign_lem s h = ground arith

-- A bump of the storage that returns changes entry lifetimes alone.
pub bump_storage_lem :
    {T : Type 0} (s : State T) {s' : State T}
    → bump_storage s ≡ ok (tt, s')
    → s' ≡ record s { ttl_calls = s'.ttl_calls }
unfolding bump_storage
bump_storage_lem s {s'} h =
    let x = >>=-eq-ok get_campaign _ s h in
    let y = >>=-eq-ok (or_panic x.value not_initialized) _ x.state x.then_rest in
    let f = get_campaign_lem s x.first in
    let g = or_panic-ok x.value not_initialized x.state y.first in
    joined s x.state y.state s' f g.1
      (bump_all_persistent_lem y.value.milestone_count y.state y.then_rest)
  where
    joined :
        {T : Type 0} (s t u v : State T)
        → t ≡ record s { ttl_calls = t.ttl_calls }
        → u ≡ t
        → v ≡ record u { ttl_calls = v.ttl_calls }
        → v ≡ record s { ttl_calls = v.ttl_calls }
    joined s t u v f g k = ground arith
