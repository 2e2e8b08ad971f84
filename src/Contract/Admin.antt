-- ===== src/Contract/Admin.antt =====
-- The operations of the administrator in campaign/src/lib.rs.
use orbit_chain_contracts.Common.{true, false, some}
use orbit_chain_contracts.Types.{Address, Hash, CampaignData, not_initialized}
use orbit_chain_contracts.Types
use orbit_chain_contracts.Host.{
  Env, Event, M, ⊤, pure, modify, panic_if, or_panic, require_auth, publish, ◌>>=◌, ◌>>◌,
}
use orbit_chain_contracts.Storage
use orbit_chain_contracts.Storage.{get_campaign, set_frozen, is_frozen, bump_all_persistent}

module _ {T : Type 0} (env : Env T) where
  -- The campaign, once its creator has authorized the call.
  unfoldable pub load_as_admin : M T CampaignData
  unfolding get_campaign
  load_as_admin = do
    found ← get_campaign
    c ← or_panic found not_initialized
    require_auth env c.creator
    pure c

  unfoldable pub upgrade : Hash → M T ⊤
  unfolding load_as_admin is_frozen
  upgrade new_wasm_hash = do
    c ← load_as_admin
    halted ← is_frozen
    panic_if halted Types.contract_frozen
    modify (λ s. record s { wasm_hash = some new_wasm_hash })
    publish (Event.contract_upgraded c.creator new_wasm_hash env.timestamp)

  unfoldable pub freeze : M T ⊤
  unfolding load_as_admin set_frozen
  freeze = do
    c ← load_as_admin
    set_frozen true
    publish (Event.contract_frozen c.creator env.timestamp)

  unfoldable pub unfreeze : M T ⊤
  unfolding load_as_admin set_frozen
  unfreeze = do
    c ← load_as_admin
    set_frozen false
    publish (Event.contract_unfrozen c.creator env.timestamp)

  unfoldable pub block_asset : Address → M T ⊤
  unfolding load_as_admin Storage.block_asset
  block_asset asset = do
    c ← load_as_admin
    Storage.block_asset asset
    publish (Event.asset_blocked c.creator asset env.timestamp)

  unfoldable pub unblock_asset : Address → M T ⊤
  unfolding load_as_admin Storage.unblock_asset
  unblock_asset asset = do
    c ← load_as_admin
    Storage.unblock_asset asset
    publish (Event.asset_unblocked c.creator asset env.timestamp)

-- Anyone may call it.
unfoldable pub bump_storage : {T : Type 0} → M T ⊤
bump_storage = do
  found ← get_campaign
  c ← or_panic found not_initialized
  bump_all_persistent c.milestone_count
