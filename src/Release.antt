-- ===== src/Release.antt =====
-- campaign/src/release_milestone.rs: release of one milestone in the primary asset.
use orbit_chain_contracts.Common.{
  ℕ, zero, suc, ℤ, pos, not, ◌&&◌, Option, none, some, List, [], ◌∷◌, ltb_ℤ, min_ℤ, checked_sub,
  if◌then◌else◌,
}
use orbit_chain_contracts.Types.{
  Address, StellarAsset, CampaignData, MilestoneData, is_released, is_unlocked, released,
  not_initialized, milestone_not_found, milestone_already_released, invalid_milestone_transition,
  previous_milestone_not_released, overflow, insufficient_contract_balance,
}
use orbit_chain_contracts.Types
use orbit_chain_contracts.Host.{
  Env, Event, M, ⊤, pure, gets, panic_if, or_panic, publish, transfer, ◌>>=◌, ◌>>◌,
}
use orbit_chain_contracts.Storage.{
  acquire_lock, release_lock, get_campaign, is_frozen, get_milestone, set_milestone,
  storage_increment_release_count,
}

-- `Vec::first`
abbrev pub first : List StellarAsset → Option StellarAsset
first [] = none
first (a ∷ as') = some a

module _ {T : Type 0} (env : Env T) where
  -- `milestone_index - 1` is released, if there is one.
  unfoldable pub check_previous : ℕ → M T ⊤
  unfolding get_milestone
  check_previous zero = pure tt
  check_previous (suc i) = do
    found ← get_milestone i
    prev ← or_panic found milestone_not_found
    panic_if (not (is_released prev.status)) previous_milestone_not_released

  -- The function up to the transfer: the campaign and the milestone to release.
  unfoldable pub release_checks : ℕ → M T (CampaignData × MilestoneData)
  unfolding acquire_lock get_campaign is_frozen get_milestone check_previous
  release_checks i = do
    acquire_lock
    found ← get_campaign
    c ← or_panic found not_initialized
    halted ← is_frozen
    panic_if halted Types.contract_frozen
    entry ← get_milestone i
    m ← or_panic entry milestone_not_found
    panic_if (is_released m.status) milestone_already_released
    panic_if (not (is_unlocked m.status)) invalid_milestone_transition
    check_previous i
    pure (c, m)

  unfoldable pub pay_token : ℕ → Address → ℤ → StellarAsset → Address → M T ⊤
  pay_token i recipient amount asset token = do
    balance ← gets (λ s. env.balance s.tokens token env.current_contract_address)
    if ltb_ℤ (pos 0) balance && ltb_ℤ (pos 0) amount
        then (do
          panic_if (ltb_ℤ balance amount) insufficient_contract_balance
          let paid = min_ℤ amount balance
          transfer env token env.current_contract_address recipient paid
          publish (
              Event.milestone_released env.current_contract_address i paid asset.asset_code
                recipient env.timestamp))
        else pure tt

  -- An asset without an issuer is not paid.
  unfoldable pub pay_primary : ℕ → Address → ℤ → StellarAsset → Option Address → M T ⊤
  unfolding pay_token
  pay_primary i recipient amount asset none = pure tt
  pay_primary i recipient amount asset (some token) = pay_token i recipient amount asset token

  abbrev pub released_milestone : Address → MilestoneData → MilestoneData
  released_milestone recipient m = record m {
    released_amount = m.target_amount;
    status = released;
    released_at = some env.timestamp;
    released_to = some recipient;
  }

  unfoldable pub release_milestone : ℕ → Address → M T ⊤
  release_milestone i recipient = do
    (c, m) ← release_checks i
    amount ← or_panic (checked_sub m.target_amount m.released_amount) overflow
    asset ← or_panic (first c.accepted_assets) not_initialized
    pay_primary i recipient amount asset asset.issuer
    set_milestone i (released_milestone recipient m)
    storage_increment_release_count
    release_lock
