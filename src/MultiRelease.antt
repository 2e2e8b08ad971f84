-- ===== src/MultiRelease.antt =====
-- campaign/src/multi_asset_release.rs: release of one milestone in every accepted asset.
use orbit_chain_contracts.Common.{
  ℕ, ℤ, pos, not, ◌||◌, Option, none, some, List, [], ◌∷◌, ◌==◌, quot, ltb_ℤ, leb_ℤ, eqb_ℤ, min_ℤ,
  max_ℤ, checked_sub, checked_add, checked_mul, unwrap_or, if◌then◌else◌,
}
use orbit_chain_contracts.Types.{
  Address, StellarAsset, CampaignData, MilestoneData, is_unlocked, released, not_initialized,
  invalid_recipient, milestone_not_found, invalid_milestone_transition, nothing_to_release,
  milestone_released_exceeds_target, overflow, insufficient_contract_balance,
}
use orbit_chain_contracts.Host.{
  Env, Event, M, ⊤, pure, gets, panic_if, or_panic, publish, transfer, ◌>>=◌, ◌>>◌,
}
use orbit_chain_contracts.Storage.{
  acquire_lock, release_lock, get_campaign, get_milestone, set_milestone, storage_get_asset_raised,
  storage_get_total_raised, storage_increment_release_count, storage_set_asset_raised,
  storage_set_total_raised,
}

abbrev pub min_transfer_amount : ℤ
min_transfer_amount = pos 1

abbrev at_least_minimum : ℤ → Option ℤ
at_least_minimum release = if leb_ℤ min_transfer_amount release then some release else none

abbrev floor_share : ℤ → Option ℤ → Option ℤ
floor_share total_raised none = none
floor_share total_raised (some numerator) = at_least_minimum (quot numerator total_raised)

-- floor(asset_raised * milestone_release / total_raised), where that is at least the minimum.
unfoldable pub compute_asset_release : ℤ → ℤ → ℤ → Option ℤ
unfolding quot checked_mul
compute_asset_release asset_raised milestone_release total_raised =
    if eqb_ℤ total_raised (pos 0) || (leb_ℤ asset_raised (pos 0) || leb_ℤ milestone_release (pos 0))
    then none
    else floor_share total_raised (checked_mul asset_raised milestone_release)

module _ {T : Type 0} (env : Env T) where
  -- The rest of the loop's body once the share is known: the balance check, the transfer, the
  -- event and the accounts. It returns the new total of what was released.
  unfoldable pub settle : ℕ → Address → StellarAsset → Address → ℤ → ℤ → ℤ → ℤ → M T ℤ
  unfolding storage_set_asset_raised checked_sub checked_add
  settle i recipient asset token balance asset_raised share total_released = do
    panic_if (ltb_ℤ balance share) insufficient_contract_balance
    let clamped = min_ℤ share balance
    if ltb_ℤ clamped min_transfer_amount then pure total_released else (do
      transfer env token env.current_contract_address recipient clamped
      publish (
          Event.milestone_released env.current_contract_address i clamped asset.asset_code recipient
            env.timestamp)
      new_asset_raised ← or_panic (checked_sub asset_raised clamped) overflow
      panic_if (ltb_ℤ new_asset_raised (pos 0)) overflow
      storage_set_asset_raised token new_asset_raised
      or_panic (checked_add total_released clamped) overflow)

  settle_share : ℕ → Address → StellarAsset → Address → ℤ → ℤ → Option ℤ → ℤ → M T ℤ
  unfolding settle
  settle_share i recipient asset token balance asset_raised none total_released =
      pure total_released
  settle_share i recipient asset token balance asset_raised (some share) total_released =
      settle i recipient asset token balance asset_raised share total_released

  unfoldable pub release_asset : ℕ → Address → ℤ → ℤ → StellarAsset → Option Address → ℤ → M T ℤ
  unfolding settle_share storage_get_asset_raised compute_asset_release
  release_asset i recipient milestone_release total_raised asset none total_released = do
    publish (Event.skipped_no_issuer i asset.asset_code)
    pure total_released
  release_asset i recipient milestone_release total_raised asset (some token) total_released = do
    balance ← gets (λ s. env.balance s.tokens token env.current_contract_address)
    asset_raised ← storage_get_asset_raised token
    let share = compute_asset_release asset_raised milestone_release total_raised
    settle_share i recipient asset token balance asset_raised share total_released

  -- The loop over the accepted assets.
  unfoldable pub release_assets : ℕ → Address → ℤ → ℤ → List StellarAsset → ℤ → M T ℤ
  unfolding release_asset
  release_assets i recipient milestone_release total_raised [] total_released = pure total_released
  release_assets i recipient milestone_release total_raised (a ∷ rest) total_released = do
    total ← release_asset i recipient milestone_release total_raised a a.issuer total_released
    release_assets i recipient milestone_release total_raised rest total

  -- Steps 1 to 5: the campaign, the milestone, the total raised and the amount to release.
  unfoldable pub multi_checks : ℕ → Address → M T (CampaignData × MilestoneData × ℤ × ℤ)
  unfolding acquire_lock get_campaign get_milestone storage_get_total_raised checked_sub
  multi_checks i recipient = do
    acquire_lock
    found ← get_campaign
    c ← or_panic found not_initialized
    panic_if (recipient == env.current_contract_address) invalid_recipient
    entry ← get_milestone i
    m ← or_panic entry milestone_not_found
    panic_if (not (is_unlocked m.status)) invalid_milestone_transition
    total_raised ← storage_get_total_raised
    panic_if (eqb_ℤ total_raised (pos 0)) nothing_to_release
    release ←
        or_panic (checked_sub m.target_amount m.released_amount) milestone_released_exceeds_target
    panic_if (eqb_ℤ release (pos 0)) nothing_to_release
    pure (c, m, total_raised, release)

  -- Step 8: the total raised falls by what was released.
  unfoldable pub close_release : ℤ → ℤ → M T ⊤
  unfolding checked_sub storage_set_total_raised storage_increment_release_count release_lock
  close_release total_raised total_released = do
    new_total ← or_panic (checked_sub total_raised total_released) overflow
    panic_if (ltb_ℤ new_total (pos 0)) overflow
    storage_set_total_raised
        (max_ℤ (unwrap_or (checked_sub total_raised total_released) (pos 0)) (pos 0))
    storage_increment_release_count
    release_lock

  unfoldable pub release_milestone_multi_asset : ℕ → Address → M T ⊤
  release_milestone_multi_asset i recipient = do
    (c, m, total_raised, release) ← multi_checks i recipient
    new_released ← or_panic (checked_add m.released_amount release) overflow
    set_milestone i (record m { released_amount = new_released; status = released })
    total_released ← release_assets i recipient release total_raised c.accepted_assets (pos 0)
    close_release total_raised total_released
