-- ===== src/AssetAuth.antt =====
-- campaign/src/asset_auth.rs: which assets a campaign accepts.
use orbit_chain_contracts.Common.{Bool, false, ◌&&◌, not, none, some, any, is_some, str_eq, ◌==◌}
use orbit_chain_contracts.Types.{
  Address, StellarAsset, AssetInfo, native, stellar, CampaignData, asset_not_accepted,
}
use orbit_chain_contracts.Host.{M, ⊤, pure, panic_if, ◌>>=◌}
use orbit_chain_contracts.Storage.{get_campaign}

-- `a.issuer.as_ref() == Some(addr)`
abbrev pub has_issuer : Address → StellarAsset → Bool
has_issuer addr a = elim a.issuer [ none ↦ false | some i ↦ i == addr ]

abbrev pub is_xlm_with_issuer : StellarAsset → Bool
is_xlm_with_issuer a = str_eq a.asset_code "XLM" && is_some a.issuer

unfoldable pub is_asset_in_list : AssetInfo → CampaignData → Bool
is_asset_in_list (stellar addr) c = any (has_issuer addr) c.accepted_assets
is_asset_in_list native c = any is_xlm_with_issuer c.accepted_assets

module _ {T : Type 0} where
  -- The code tests membership in each of its two functions by the same expressions.
  unfoldable pub assert_asset_is_accepted : AssetInfo → CampaignData → M T ⊤
  assert_asset_is_accepted asset c = panic_if (not (is_asset_in_list asset c)) asset_not_accepted

  unfoldable pub is_asset_accepted : AssetInfo → M T Bool
  unfolding get_campaign
  is_asset_accepted asset = do
    found ← get_campaign
    pure (elim found [ none ↦ false | some c ↦ is_asset_in_list asset c ])
