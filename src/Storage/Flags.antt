-- ===== src/Storage/Flags.antt =====
-- The status flag and the re-entrancy lock (temporary), the freeze flag and the asset block list.
use orbit_chain_contracts.Common.{
  ℕ, Bool, true, false, Option, none, some, update, unwrap_or, is_some, ◌∷◌, if◌then◌else◌,
}
use orbit_chain_contracts.Types.{Address, DataKey, reentrant_call}
use orbit_chain_contracts.Host.{M, ⊤, ok, panic_if, gets, modify, ◌>>=◌, ◌>>◌}
use orbit_chain_contracts.Storage.Ttl.{bump_persistent, temporary_ttl, temporary_bump_threshold}

module _ {T : Type 0} where
  unfoldable pub get_contract_status : M T (Option ℕ)
  get_contract_status s = ok (
    s.contract_status,
    record s {
      ttl_calls =
          if is_some s.contract_status
          then (DataKey.contract_status, temporary_bump_threshold, temporary_ttl) ∷ s.ttl_calls
          else s.ttl_calls;
    },
  )

  unfoldable pub set_contract_status : ℕ → M T ⊤
  set_contract_status status = modify (λ s. record s {
    contract_status = some status;
    ttl_calls = (DataKey.contract_status, temporary_bump_threshold, temporary_ttl) ∷ s.ttl_calls;
  })

  unfoldable pub acquire_lock : M T ⊤
  acquire_lock = do
    locked ← gets (λ s. is_some s.reentrancy_lock)
    panic_if locked reentrant_call
    modify (λ s. record s {
      reentrancy_lock = some true;
      ttl_calls = (DataKey.reentrancy_lock, 0, temporary_ttl) ∷ s.ttl_calls;
    })

  unfoldable pub release_lock : M T ⊤
  release_lock = modify (λ s. record s { reentrancy_lock = none })

  unfoldable pub is_frozen : M T Bool
  unfolding bump_persistent
  is_frozen s = ok (unwrap_or s.frozen false, bump_persistent DataKey.frozen s)

  unfoldable pub set_frozen : Bool → M T ⊤
  unfolding bump_persistent
  set_frozen frozen =
      modify (λ s. bump_persistent DataKey.frozen (record s { frozen = some frozen }))

  unfoldable pub is_asset_blocked : Address → M T Bool
  unfolding bump_persistent
  is_asset_blocked asset s =
      ok (unwrap_or (s.blocked_asset asset) false, bump_persistent (DataKey.blocked_asset asset) s)

  unfoldable pub block_asset : Address → M T ⊤
  unfolding bump_persistent
  block_asset asset = modify (λ s.
      bump_persistent (DataKey.blocked_asset asset)
        (record s { blocked_asset = update s.blocked_asset asset (some true) }))

  unfoldable pub unblock_asset : Address → M T ⊤
  unfolding bump_persistent
  unblock_asset asset = modify (λ s.
      bump_persistent (DataKey.blocked_asset asset)
        (record s { blocked_asset = update s.blocked_asset asset (some false) }))
