-- ===== src/Storage/Counters.antt =====
-- The totals and the counters.
use orbit_chain_contracts.Common.{
  ℕ, ℤ, pos, some, update, unwrap_or, ltb_ℤ, leb_ℤ, checked_add, checked_add_u32, checked_add_u64,
}
use orbit_chain_contracts.Types.{Address, DataKey, overflow, invalid_amount}
use orbit_chain_contracts.Host.{M, ⊤, ok, pure, or_panic, panic_if, modify, ◌>>=◌, ◌>>◌}
use orbit_chain_contracts.Storage.Ttl.{bump_persistent}

module _ {T : Type 0} where
  unfoldable pub storage_get_total_raised : M T ℤ
  unfolding bump_persistent
  storage_get_total_raised s =
      ok (unwrap_or s.total_raised (pos 0), bump_persistent DataKey.total_raised s)

  unfoldable pub storage_set_total_raised : ℤ → M T ⊤
  unfolding bump_persistent
  storage_set_total_raised amount = do
    panic_if (ltb_ℤ amount (pos 0)) invalid_amount
    modify (λ s. bump_persistent DataKey.total_raised (record s { total_raised = some amount }))

  unfoldable pub storage_increment_total_raised : ℤ → M T ℤ
  unfolding storage_get_total_raised storage_set_total_raised checked_add
  storage_increment_total_raised delta = do
    panic_if (leb_ℤ delta (pos 0)) invalid_amount
    current ← storage_get_total_raised
    new_total ← or_panic (checked_add current delta) overflow
    storage_set_total_raised new_total
    pure new_total

  unfoldable pub storage_get_donation_count : M T ℕ
  unfolding bump_persistent
  storage_get_donation_count s =
      ok (unwrap_or s.donation_count 0, bump_persistent DataKey.donation_count s)

  unfoldable pub storage_increment_donation_count : M T ℕ
  unfolding storage_get_donation_count
  storage_increment_donation_count = do
    current ← storage_get_donation_count
    next ← or_panic (checked_add_u64 current 1) overflow
    modify (λ s. bump_persistent DataKey.donation_count (record s { donation_count = some next }))
    pure next

  unfoldable pub storage_get_unique_donor_count : M T ℕ
  unfolding bump_persistent
  storage_get_unique_donor_count s =
      ok (unwrap_or s.unique_donor_count 0, bump_persistent DataKey.unique_donor_count s)

  unfoldable pub storage_increment_unique_donor_count : M T ℕ
  unfolding storage_get_unique_donor_count
  storage_increment_unique_donor_count = do
    current ← storage_get_unique_donor_count
    next ← or_panic (checked_add_u32 current 1) overflow
    modify (λ s.
        bump_persistent DataKey.unique_donor_count (record s { unique_donor_count = some next }))
    pure next

  unfoldable pub storage_get_release_count : M T ℕ
  unfolding bump_persistent
  storage_get_release_count s =
      ok (unwrap_or s.release_count 0, bump_persistent DataKey.release_count s)

  unfoldable pub storage_increment_release_count : M T ℕ
  unfolding storage_get_release_count
  storage_increment_release_count = do
    current ← storage_get_release_count
    next ← or_panic (checked_add_u64 current 1) overflow
    modify (λ s. bump_persistent DataKey.release_count (record s { release_count = some next }))
    pure next

  unfoldable pub storage_get_asset_raised : Address → M T ℤ
  unfolding bump_persistent
  storage_get_asset_raised token s =
      ok (unwrap_or (s.asset_raised token) (pos 0), bump_persistent (DataKey.asset_raised token) s)

  unfoldable pub storage_set_asset_raised : Address → ℤ → M T ⊤
  unfolding bump_persistent
  storage_set_asset_raised token amount = do
    panic_if (ltb_ℤ amount (pos 0)) invalid_amount
    modify (λ s.
        bump_persistent (DataKey.asset_raised token)
          (record s { asset_raised = update s.asset_raised token (some amount) }))

  unfoldable pub storage_increment_asset_raised : Address → ℤ → M T ℤ
  unfolding storage_get_asset_raised storage_set_asset_raised checked_add
  storage_increment_asset_raised token delta = do
    panic_if (leb_ℤ delta (pos 0)) invalid_amount
    current ← storage_get_asset_raised token
    new_total ← or_panic (checked_add current delta) overflow
    storage_set_asset_raised token new_total
    pure new_total
