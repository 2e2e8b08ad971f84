-- ===== src/Tools/Config.antt =====
-- crates/tools/src/environment_config.rs, the environment of secure_vault.rs, the vault's keys of
-- encrypted_vault.rs and the shape tests of key_manager.rs. `env` answers `env::var`, after the `.env` file.
use Prim.Native.String.{len}
use text.Mathlib.Text.{starts_with}
use orbit_chain_contracts.Common.{
  String, not, Option, none, some, str_eq, ltb, unwrap_or, if◌then◌else◌,
}
use orbit_chain_contracts.Tools.Action.{Attempt, ok, err}

pub record NetworkConfig : Type 0 where
  pub name : String
  pub rpc_url : String
  pub horizon_url : String
  pub network_passphrase : String

pub record EnvironmentConfig : Type 0 where
  pub network : String
  pub testnet : NetworkConfig
  pub mainnet : NetworkConfig
  pub admin_public_key : Option String
  pub issuing_public_key : Option String

pub data ConfigError : Type 0 where
  unknown_network rpc_url_required horizon_url_required passphrase_required : ConfigError

abbrev pub default_testnet : NetworkConfig
default_testnet = record {
  name = "testnet";
  rpc_url = "https://soroban-testnet.stellar.org:443";
  horizon_url = "https://horizon-testnet.stellar.org";
  network_passphrase = "Test SDF Network ; September 2015";
}

abbrev pub default_mainnet : NetworkConfig
default_mainnet = record {
  name = "mainnet";
  rpc_url = "https://soroban-rpc.mainnet.stellar.gateway.fm";
  horizon_url = "https://horizon.stellar.org";
  network_passphrase = "Public Global Stellar Network ; September 2015";
}

abbrev pub default_for_testnet : EnvironmentConfig
default_for_testnet = record {
  network = "testnet";
  testnet = default_testnet;
  mainnet = default_mainnet;
  admin_public_key = none;
  issuing_public_key = none;
}

unfoldable pub from_env : (String → Option String) → EnvironmentConfig
from_env env = record {
  network = unwrap_or (env "SOROBAN_NETWORK") "testnet";
  testnet = record {
    name = "testnet";
    rpc_url = unwrap_or (env "SOROBAN_TESTNET_RPC_URL") "https://soroban-testnet.stellar.org:443";
    horizon_url =
        unwrap_or (env "SOROBAN_TESTNET_HORIZON_URL") "https://horizon-testnet.stellar.org";
    network_passphrase =
        unwrap_or (env "SOROBAN_TESTNET_PASSPHRASE") "Test SDF Network ; September 2015";
  };
  mainnet = record {
    name = "mainnet";
    rpc_url =
        unwrap_or (env "SOROBAN_MAINNET_RPC_URL") "https://soroban-rpc.mainnet.stellar.gateway.fm";
    horizon_url = unwrap_or (env "SOROBAN_MAINNET_HORIZON_URL") "https://horizon.stellar.org";
    network_passphrase =
        unwrap_or (env "SOROBAN_MAINNET_PASSPHRASE")
          "Public Global Stellar Network ; September 2015";
  };
  admin_public_key = env "SOROBAN_ADMIN_PUBLIC_KEY";
  issuing_public_key = env "SOROBAN_ISSUING_PUBLIC_KEY";
}

unfoldable pub get_active_network : EnvironmentConfig → Attempt ConfigError NetworkConfig
get_active_network c =
    if str_eq c.network "testnet"
    then ok c.testnet
    else if str_eq c.network "mainnet"
    then ok c.mainnet
    else err unknown_network

-- The tests of `validate` on the active network.
unfoldable pub validate_network : NetworkConfig → Attempt ConfigError (Unit {0})
validate_network n =
    if str_eq n.rpc_url ""
    then err rpc_url_required
    else if str_eq n.horizon_url ""
    then err horizon_url_required
    else if str_eq n.network_passphrase ""
    then err passphrase_required
    else ok tt

unfoldable pub validate : EnvironmentConfig → Attempt ConfigError (Unit {0})
unfolding get_active_network validate_network
validate c = elim (get_active_network c) [ ok n ↦ validate_network n | err e ↦ err e ]

pub record SecureVault : Type 0 where
  pub admin_secret_key : Option String
  pub admin_public_key : Option String
  pub issuing_secret_key : Option String
  pub issuing_public_key : Option String

unfoldable pub vault_from_env : (String → Option String) → SecureVault
vault_from_env env = record {
  admin_secret_key = env "SOROBAN_ADMIN_SECRET_KEY";
  admin_public_key = env "SOROBAN_ADMIN_PUBLIC_KEY";
  issuing_secret_key = env "SOROBAN_ISSUING_SECRET_KEY";
  issuing_public_key = env "SOROBAN_ISSUING_PUBLIC_KEY";
}

-- The stored keys, and the key manager's `import_encrypted` and `decrypt_key` (AES-256-GCM) where there
-- is a key manager.
pub record EncryptedVault : Type 0 where
  pub encrypted_keys : String → Option String
  pub key_manager : Option (String → Option String)

unfoldable pub retrieve_secret_key : EncryptedVault → String → Option String
retrieve_secret_key v name = elim (v.encrypted_keys name) [
  | none ↦ none
  | some text ↦ elim v.key_manager [ none ↦ none | some decrypt ↦ decrypt text ]
]

pub data KeyError : Type 0 where
  wrong_prefix too_short : KeyError

abbrev pub validate_key : String → String → Attempt KeyError (Unit {0})
validate_key prefix key =
    if not (starts_with key prefix)
    then err wrong_prefix
    else if ltb (len key) 56
    then err too_short
    else ok tt

unfoldable pub validate_secret_key : String → Attempt KeyError (Unit {0})
validate_secret_key key = validate_key "S" key

unfoldable pub validate_public_key : String → Attempt KeyError (Unit {0})
validate_public_key key = validate_key "G" key
