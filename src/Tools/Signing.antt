-- ===== src/Tools/Signing.antt =====
-- The signing requests of crates/tools/src/signing_request.rs and their signatures. The crates ed25519_dalek
-- and hex are parameters, as are the clock, the environment and `to_string` of numbers.
pub mod Decoded
pub mod Verified
use Prim.Native.String.{◌++◌ as ◌<>◌}
use orbit_chain_contracts.Common.{
  ℕ, ℤ, String, Bool, true, false, not, ◌||◌, Option, none, some, List, ◌==◌, length, str_eq,
  unwrap_or, if◌then◌else◌,
}
use orbit_chain_contracts.Tools.Action.{Attempt, ok, err, ◌then◌, map_err}
use orbit_chain_contracts.Tools.Config.{KeyError, validate_secret_key}
use orbit_chain_contracts.Tools.Strkey.{
  StrkeyError, ed25519_public_version_byte, strkey_decode, strkey_encode,
}

-- `created_at` is a `u64`.
pub record SigningRequest : Type 0 where
  pub id : String
  pub network : String
  pub transaction_xdr : String
  pub description : String
  pub created_at : ℕ

pub record SigningRequestBuilder : Type 0 where
  pub id : String
  pub network : String
  pub transaction_xdr : String
  pub description : String
  pub created_at : ℕ

pub data SigningError : Type 0 where
  empty_xdr empty_id : SigningError
  invalid_network : String → SigningError
  empty_secret_key secret_not_set : SigningError
  invalid_secret_key : KeyError → SigningError
  invalid_strkey : StrkeyError → SigningError
  unsupported_algorithm : String → SigningError
  empty_public_key invalid_verifying_key invalid_hex : SigningError
  wrong_signature_size : ℕ → SigningError

-- What the builder reads of its surroundings: the clock in seconds and in milliseconds, and the
-- environment.
pub record Surroundings : Type 0 where
  pub timestamp : ℕ
  pub timestamp_millis : ℕ
  pub env : String → Option String

unfoldable pub builder_new :
    (ℕ → String) → Surroundings → String → Option String → SigningRequestBuilder
builder_new show w transaction_xdr network = record {
  id = "req_" <> show w.timestamp_millis;
  network = unwrap_or network (unwrap_or (w.env "SOROBAN_NETWORK") "testnet");
  transaction_xdr = transaction_xdr;
  description = "";
  created_at = w.timestamp;
}

unfoldable pub with_description : SigningRequestBuilder → String → SigningRequestBuilder
with_description b text = record b { description = text }

unfoldable pub build : SigningRequestBuilder → Attempt SigningError SigningRequest
build b =
    if str_eq b.transaction_xdr ""
    then err empty_xdr
    else ok (record {
      id = b.id;
      network = b.network;
      transaction_xdr = b.transaction_xdr;
      description = b.description;
      created_at = b.created_at;
    })

-- `format!("{} [memo: {}]", …)` where there is a memo.
unfoldable pub with_memo : Option String → SigningRequestBuilder → SigningRequestBuilder
unfolding with_description
with_memo none b = b
with_memo (some m) b = with_description b (b.description <> " [memo: " <> m <> "]")

unfoldable pub build_donation_request :
    (ℕ → String)
    → (ℤ → String)
    → Surroundings
    → String
    → ℕ
    → ℤ
    → String
    → Option String
    → Attempt SigningError SigningRequest
unfolding builder_new with_description build with_memo
build_donation_request show show_i128 w donor_address campaign_id amount asset memo =
    let text =
      "Donate " <> show_i128 amount <> " " <> asset <> " to campaign #" <> show campaign_id in
    let transaction_xdr = "AAAAAA==" <> donor_address <> show campaign_id <> show_i128 amount in
    build (with_memo memo (with_description (builder_new show w transaction_xdr none) text))

unfoldable pub build_campaign_request :
    (ℕ → String)
    → (ℤ → String)
    → Surroundings
    → String
    → String
    → ℤ
    → ℕ
    → Attempt SigningError SigningRequest
unfolding builder_new with_description build
build_campaign_request show show_i128 w creator_address title goal deadline =
    let text =
      "Create campaign '"
      <> title
      <> "' with goal "
      <> show_i128 goal
      <> " until "
      <> show deadline in
    let transaction_xdr =
      "AAAAAA==" <> creator_address <> title <> show_i128 goal <> show deadline in
    build (with_description (builder_new show w transaction_xdr none) text)

unfoldable pub validate : SigningRequest → Attempt SigningError (Unit {0})
validate r =
    if str_eq r.id ""
    then err empty_id
    else if str_eq r.transaction_xdr ""
    then err empty_xdr
    else if str_eq r.network "testnet" || (str_eq r.network "mainnet" || str_eq r.network "public")
    then ok tt
    else err (invalid_network r.network)

-- `signed_at` is the clock's.
pub record ServerSignedTransaction : Type 0 where
  pub request_id : String
  pub transaction_xdr : String
  pub signature : String
  pub algorithm : String
  pub signer_public_key : String
  pub signed_at : ℤ

abbrev pub default_signature_algorithm : String
default_signature_algorithm = "ed25519"

-- What the code calls of ed25519_dalek and of hex, on bytes.
pub record Crates : Type 0 where
  pub verifying_key : List ℕ → List ℕ
  pub is_verifying_key : List ℕ → Bool
  pub sign : List ℕ → String → List ℕ
  pub verifies : List ℕ → String → List ℕ → Bool
  pub hex_encode : List ℕ → String
  pub hex_decode : String → Option (List ℕ)

abbrev pub check_signature : Crates → List ℕ → String → Option (List ℕ) → Attempt SigningError Bool
check_signature c public_bytes message none = err invalid_hex
check_signature c public_bytes message (some sig_bytes) =
    if not (length sig_bytes == 64)
    then err (wrong_signature_size (length sig_bytes))
    else ok (c.verifies public_bytes message sig_bytes)

unfoldable pub verify : Crates → ServerSignedTransaction → Attempt SigningError Bool
verify c t =
    if not (str_eq t.algorithm "ed25519")
    then err (unsupported_algorithm t.algorithm)
    else if str_eq t.signer_public_key ""
    then err empty_public_key
    else (map_err invalid_strkey (strkey_decode t.signer_public_key) then λ public_bytes.
        if not (c.is_verifying_key public_bytes)
        then err invalid_verifying_key
        else check_signature c public_bytes t.transaction_xdr (c.hex_decode t.signature))

unfoldable pub signed_by : Crates → SigningRequest → List ℕ → ℤ → ServerSignedTransaction
signed_by c r seed_bytes now = record {
  request_id = r.id;
  transaction_xdr = r.transaction_xdr;
  signature = c.hex_encode (c.sign seed_bytes r.transaction_xdr);
  algorithm = default_signature_algorithm;
  signer_public_key = strkey_encode (c.verifying_key seed_bytes) ed25519_public_version_byte;
  signed_at = now;
}

unfoldable pub sign_server_side :
    Crates → SigningRequest → String → ℤ → Attempt SigningError ServerSignedTransaction
unfolding signed_by
sign_server_side c r secret_key now =
    if str_eq secret_key ""
    then err empty_secret_key
    else (map_err invalid_secret_key (validate_secret_key secret_key) then λ _.
        map_err invalid_strkey (strkey_decode secret_key) then λ seed_bytes.
        ok (signed_by c r seed_bytes now))

unfoldable pub sign_from_env :
    Crates
    → (String → Option String)
    → SigningRequest
    → ℤ
    → Attempt SigningError ServerSignedTransaction
unfolding sign_server_side
sign_from_env c env r now = elim (env "SOROBAN_SECRET_KEY") [
  | none ↦ err secret_not_set
  | some secret_key ↦ sign_server_side c r secret_key now
]
