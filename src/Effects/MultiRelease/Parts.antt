-- ===== src/Effects/MultiRelease/Parts.antt =====
-- The parts of `release_milestone_multi_asset` of campaign/src/multi_asset_release.rs: the tests and
-- the loop over the assets.
use orbit_chain_contracts.Common.{
  ℕ, ℤ, pos, ◌≡◌, inl, inr, refl, subst, true, false, Option, none, some, List, [], ◌∷◌, arith,
  unwrap_or, update, ltb_ℤ, leb_ℤ, eqb_ℤ, ◌-ℤ◌, ◌+ℤ◌, checked_sub, Option-cases, Bool-cases, ◌==◌,
}
use orbit_chain_contracts.Types.{
  Address, StellarAsset, CampaignData, MilestoneData, unlocked, DataKey,
}
use orbit_chain_contracts.Host.{Env, State, ok}
use orbit_chain_contracts.Host.Inversion.{>>=-eq-ok}
use orbit_chain_contracts.Storage.{milestone_at, bump_persistent}
use orbit_chain_contracts.MultiRelease.{
  compute_asset_release, settle, release_asset, release_assets, multi_checks,
}
use orbit_chain_contracts.Math.AssetShare.{IsShare, compute_asset_release-IsShare}
use orbit_chain_contracts.Effects.Release.{is_unlocked-eq, min_covered}

-- A share is at least the minimum amount.
compute_asset_release-least :
    (a m t share : ℤ) → compute_asset_release a m t ≡ some share → ltb_ℤ share (pos 1) ≡ false
unfolding compute_asset_release
compute_asset_release-least a m t share h = ground arith

-- What the multi-asset release needs of the state before it, and what it finds there.
pub record MultiReleasable {T : Type 0} (env : Env T) (i : ℕ) (recipient : Address) (s : State T)
    (c : CampaignData) (m : MilestoneData) (total_raised amount : ℤ) : Type 0 where
  pub stored : s.campaign_data ≡ some c
  pub lock_free : s.reentrancy_lock ≡ none
  pub other_recipient : (recipient == env.current_contract_address) ≡ false
  pub found : milestone_at s i ≡ some m
  pub is_next : m.status ≡ unlocked
  pub total_is : total_raised ≡ unwrap_or s.total_raised (pos 0)
  pub some_raised : eqb_ℤ total_raised (pos 0) ≡ false
  pub amount_is : checked_sub m.target_amount m.released_amount ≡ some amount
  pub some_due : eqb_ℤ amount (pos 0) ≡ false

module _ {T : Type 0} (env : Env T) (i : ℕ) (recipient : Address) where
  pub multi_checks_lem :
      (s : State T) {c : CampaignData} {m : MilestoneData} {total_raised amount : ℤ} {s' : State T}
      → multi_checks env i recipient s ≡ ok ((c, m, total_raised, amount), s')
      → MultiReleasable env i recipient s c m total_raised amount
        × (s' ≡ record s { reentrancy_lock = some true; ttl_calls = s'.ttl_calls })
  unfolding multi_checks
  multi_checks_lem s h = elim (Option-cases (milestone_at s i)) [
    | inl e ↦ absurd (ground arith)
    | inr (m, e) ↦ (
      record {
        stored = ground arith;
        lock_free = ground arith;
        other_recipient = ground arith;
        found = ground arith;
        is_next = is_unlocked-eq _ (ground arith);
        total_is = ground arith;
        some_raised = ground arith;
        amount_is = ground arith;
        some_due = ground arith;
      },
      ground arith,
    )
  ]

  -- The payment of a share in one token, and the accounts after it.
  pub record SharePaid (token : Address) (asset_raised share total total' : ℤ) (s s' : State T)
      : Type 0 where
    pub covered : ltb_ℤ (env.balance s.tokens token env.current_contract_address) share ≡ false
    pub transferred :
        env.transfer s.tokens token env.current_contract_address recipient share ≡ some s'.tokens
    pub enough : leb_ℤ (pos 0) (asset_raised -ℤ share) ≡ true
    pub total_is : total' ≡ total +ℤ share
    pub state_after : s' ≡ record s {
      tokens = s'.tokens;
      events = s'.events;
      ttl_calls = s'.ttl_calls;
      asset_raised = update s.asset_raised token (some (asset_raised -ℤ share));
    }

  settle_lem :
      (asset : StellarAsset) (token : Address) (balance asset_raised share total : ℤ) (s : State T)
      {total' : ℤ} {s' : State T}
      → balance ≡ env.balance s.tokens token env.current_contract_address
      → ltb_ℤ share (pos 1) ≡ false
      → settle env i recipient asset token balance asset_raised share total s ≡ ok (total', s')
      → SharePaid token asset_raised share total total' s s'
  unfolding settle
  settle_lem asset token balance asset_raised share total s e least h =
      elim (Bool-cases (ltb_ℤ balance share)) [
        | inl short ↦ absurd (ground arith)
        | inr enough ↦
            let whole = min_covered env share balance enough in
            record {
              covered = ground arith;
              transferred = ground arith;
              enough = ground arith;
              total_is = ground arith;
              state_after = ground arith;
            }
      ]

  -- One asset: an asset without an issuer is skipped, and so is one that has no share; otherwise the
  -- share is paid.
  abbrev pub Turn : ℤ → ℤ → Option Address → ℤ → ℤ → State T → State T → Type 0
  Turn amount total_raised none total total' s s' =
      (total' ≡ total) × (s' ≡ record s { events = s'.events })
  Turn amount total_raised (some token) total total' s s' =
      (share : Option ℤ) × IsShare (unwrap_or (s.asset_raised token) (pos 0)) amount total_raised
        share
      × TurnShare token (unwrap_or (s.asset_raised token) (pos 0)) share total total' s s'
    where
      TurnShare : Address → ℤ → Option ℤ → ℤ → ℤ → State T → State T → Type 0
      TurnShare token raised none total total' s s' =
          (total' ≡ total) × (s' ≡ record s { ttl_calls = s'.ttl_calls })
      TurnShare token raised (some share) total total' s s' =
          SharePaid token raised share total total' (bump_persistent (DataKey.asset_raised token) s)
            s'

  release_asset-Turn :
      (amount total_raised : ℤ) (asset : StellarAsset) (issuer : Option Address) (total : ℤ)
      (s : State T) {total' : ℤ} {s' : State T}
      → release_asset env i recipient amount total_raised asset issuer total s ≡ ok (total', s')
      → Turn amount total_raised issuer total total' s s'
  unfolding release_asset
  release_asset-Turn amount total_raised asset none total s h = ground arith
  release_asset-Turn amount total_raised asset (some token) total s h =
      let raised = unwrap_or (s.asset_raised token) (pos 0) in
      elim (Option-cases (compute_asset_release raised amount total_raised)) [
        | inl e ↦ (
          none,
          subst (IsShare raised amount total_raised) e
              (compute_asset_release-IsShare raised amount total_raised),
          ground arith,
        )
        | inr (share, e) ↦ (
          some share,
          subst (IsShare raised amount total_raised) e
              (compute_asset_release-IsShare raised amount total_raised),
          settle_lem asset token (env.balance s.tokens token env.current_contract_address) raised
              share total (bump_persistent (DataKey.asset_raised token) s) refl
              (compute_asset_release-least raised amount total_raised share e) (ground arith),
        )
      ]

  -- The assets, one after the other.
  abbrev pub Turns : ℤ → ℤ → List StellarAsset → ℤ → ℤ → State T → State T → Type 0
  Turns amount total_raised [] total total' s s' = (total' ≡ total) × (s' ≡ s)
  Turns amount total_raised (a ∷ rest) total total' s s' =
      (mid : ℤ) × (t : State T) × Turn amount total_raised a.issuer total mid s t
      × Turns amount total_raised rest mid total' t s'

  pub release_assets-Turns :
      (amount total_raised : ℤ) (assets : List StellarAsset) (total : ℤ) (s : State T) {total' : ℤ}
      {s' : State T}
      → release_assets env i recipient amount total_raised assets total s ≡ ok (total', s')
      → Turns amount total_raised assets total total' s s'
  unfolding release_assets
  release_assets-Turns amount total_raised [] total s h = ground arith
  release_assets-Turns amount total_raised (a ∷ rest) total s h =
      let x =
        >>=-eq-ok (release_asset env i recipient amount total_raised a a.issuer total) _ s h in
      (
        x.value,
        x.state,
        release_asset-Turn amount total_raised a a.issuer total s x.first,
        release_assets-Turns amount total_raised rest x.value x.state x.then_rest,
      )

  -- What the loop over the assets may change.
  abbrev pub TurnsOnly : State T → State T → Type 0
  TurnsOnly s s' = s' ≡ record s {
    asset_raised = s'.asset_raised;
    tokens = s'.tokens;
    events = s'.events;
    ttl_calls = s'.ttl_calls;
  }

  Turn-TurnsOnly :
      (amount total_raised : ℤ) (issuer : Option Address) (total total' : ℤ) (s s' : State T)
      → Turn amount total_raised issuer total total' s s'
      → TurnsOnly s s'
  unfolding bump_persistent
  Turn-TurnsOnly amount total_raised none total total' s s' (_, same) = ground arith
  Turn-TurnsOnly amount total_raised (some token) total total' s s' (none, _, nothing) =
      let same = nothing.1 in ground arith
  Turn-TurnsOnly amount total_raised (some token) total total' s s' (some share, _, paid) =
      let after = paid.state_after in ground arith

  TurnsOnly-trans : (s t u : State T) → TurnsOnly s t → TurnsOnly t u → TurnsOnly s u
  TurnsOnly-trans s t u p q = ground arith

  pub Turns-TurnsOnly :
      (amount total_raised : ℤ) (assets : List StellarAsset) (total total' : ℤ) (s s' : State T)
      → Turns amount total_raised assets total total' s s'
      → TurnsOnly s s'
  Turns-TurnsOnly amount total_raised [] total total' s s' (_, same) = ground arith
  Turns-TurnsOnly amount total_raised (a ∷ rest) total total' s s' (mid, t, one, others) =
      TurnsOnly-trans s t s' (Turn-TurnsOnly amount total_raised a.issuer total mid s t one)
        (Turns-TurnsOnly amount total_raised rest mid total' t s' others)
