-- ===== src/Storage/Donors.antt =====
-- The donor records and what each donor gave in each asset.
use orbit_chain_contracts.Common.{ℤ, pos, Option, some, update, update₂, unwrap_or, checked_add}
use orbit_chain_contracts.Types.{Address, DonorRecord, DataKey, native, new_for, overflow}
use orbit_chain_contracts.Host.{M, ⊤, ok, pure, or_panic, gets, modify, ◌>>=◌}
use orbit_chain_contracts.Storage.Ttl.{bump_persistent}

module _ {T : Type 0} where
  unfoldable pub set_donor : Address → DonorRecord → M T ⊤
  unfolding bump_persistent
  set_donor d r s = ok (
    tt,
    bump_persistent (DataKey.donor_data d)
        (record s { donor_data = update s.donor_data d (some r) }),
  )

  unfoldable pub get_donor : Address → M T (Option DonorRecord)
  unfolding bump_persistent
  get_donor d s = ok (s.donor_data d, bump_persistent (DataKey.donor_data d) s)

  unfoldable pub get_donor_or_default : Address → M T DonorRecord
  unfolding get_donor
  get_donor_or_default d = do r ← get_donor d; pure (unwrap_or r (new_for d native))

  unfoldable pub get_donor_asset_donation : Address → Address → M T ℤ
  unfolding bump_persistent
  get_donor_asset_donation d a s = ok (
    unwrap_or (s.donor_asset_donation d a) (pos 0),
    bump_persistent (DataKey.donor_asset_donation d a) s,
  )

  unfoldable pub increment_donor_asset_donation : Address → Address → ℤ → M T ⊤
  unfolding bump_persistent checked_add
  increment_donor_asset_donation d a amount = do
    current ← gets (λ s. unwrap_or (s.donor_asset_donation d a) (pos 0))
    new_amount ← or_panic (checked_add current amount) overflow
    modify (λ s.
        bump_persistent (DataKey.donor_asset_donation d a) (record s {
          donor_asset_donation = update₂ s.donor_asset_donation d a (some new_amount);
        }))
