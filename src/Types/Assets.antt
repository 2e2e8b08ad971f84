-- ===== src/Types/Assets.antt =====
-- `StellarAsset` and `AssetInfo` of campaign/src/types.rs.
use Prim.Native.String.{len}
use orbit_chain_contracts.Common.{
  ℕ, String, Bool, true, false, ◌&&◌, Option, none, some, ltb, leb, is_none,
}

abbrev pub Address : Type 0
Address = ℕ

-- `BytesN<32>`
abbrev pub Hash : Type 0
Hash = ℕ

pub record StellarAsset : Type 0 where
  pub asset_code : String
  pub issuer : Option Address

abbrev pub is_xlm : StellarAsset → Bool
is_xlm a = is_none a.issuer

unfoldable pub has_valid_code : StellarAsset → Bool
has_valid_code a = let n = len a.asset_code in ltb 0 n && leb n 12

pub data AssetInfo : Type 0 where
  native : AssetInfo
  stellar : Address → AssetInfo

abbrev pub token_address : AssetInfo → Option Address
token_address native = none
token_address (stellar addr) = some addr

abbrev pub is_native : AssetInfo → Bool
is_native native = true
is_native (stellar addr) = false
