-- ===== src/Tools/Invoke.antt =====
-- crates/tools/src/invoke.rs: the `invoke` command up to the child process that it starts. serde_json's
-- parser and printer are parameters.
pub mod RoundTrip
pub mod Arguments
pub mod Prepared
use Prim.Native.String.{◌++◌ as ◌<>◌, len}
use Prim.Native.Char.{Char, code}
use text.Mathlib.Text.{starts_with}
use orbit_chain_contracts.Common.{
  ℕ, String, Bool, true, false, not, ◌&&◌, ◌||◌, Option, none, some, List, [], ◌∷◌, ◌++◌, ◌==◌, leb,
  str_eq, unwrap_or, if◌then◌else◌,
}
use orbit_chain_contracts.Tools.Action.{Attempt, ok, err, ◌then◌}
use orbit_chain_contracts.Tools.Config.{
  NetworkConfig, EnvironmentConfig, from_env, get_active_network, SecureVault, vault_from_env,
  EncryptedVault, retrieve_secret_key, validate_secret_key,
}

pub record InvokeOptions : Type 0 where
  pub contract_id : String
  pub method : String
  pub args_json : Option String
  pub source_key : Option String
  pub network : Option String
  pub send : Option String

pub record ResolvedKey : Type 0 where
  pub secret : String
  pub source : String

pub data InvokeError : Type 0 where
  unknown_argument value_required : String → InvokeError
  missing_id missing_method : InvokeError
  invalid_network invalid_send : String → InvokeError
  id_prefix id_length id_characters : InvokeError
  not_json not_object : InvokeError
  invalid_argument_name number_out_of_range : String → InvokeError
  not_serialized : InvokeError
  unknown_network : InvokeError
  invalid_key : String → InvokeError
  no_signing_key : InvokeError

-- What the loop over the flags has read.
pub record Flags : Type 0 where
  pub contract_id : Option String
  pub method : Option String
  pub args_json : Option String
  pub source_key : Option String
  pub network : Option String
  pub send : Option String

abbrev pub no_flags : Flags
no_flags = record {
  contract_id = none;
  method = none;
  args_json = none;
  source_key = none;
  network = none;
  send = none;
}

-- The variable that a flag sets.
unfoldable pub set_flag : String → Option (String → Flags → Flags)
set_flag flag =
    if str_eq flag "--id"
    then some (λ v f. record f { contract_id = some v })
    else if str_eq flag "--method"
    then some (λ v f. record f { method = some v })
    else if str_eq flag "--args-json"
    then some (λ v f. record f { args_json = some v })
    else if str_eq flag "--source-key"
    then some (λ v f. record f { source_key = some v })
    else if str_eq flag "--network"
    then some (λ v f. record f { network = some v })
    else if str_eq flag "--send"
    then some (λ v f. record f { send = some v })
    else none

-- The loop over the arguments, two at a time.
unfoldable pub read_flags : List String → Flags → Attempt InvokeError Flags
unfolding set_flag
read_flags [] f = ok f
read_flags (flag ∷ []) f = elim (set_flag flag) [
  | none ↦ err (unknown_argument flag)
  | some put ↦ err (value_required flag)
]
read_flags (flag ∷ value ∷ rest) f = elim (set_flag flag) [
  | none ↦ err (unknown_argument flag)
  | some put ↦ read_flags rest (put value f)
]

abbrev pub is_network : String → Bool
is_network n = str_eq n "testnet" || str_eq n "mainnet"

abbrev pub is_send : String → Bool
is_send s = str_eq s "default" || str_eq s "no" || str_eq s "yes"

-- A value that was given and that the test refuses.
abbrev pub refused : (String → Bool) → Option String → Option String
refused p none = none
refused p (some v) = if p v then none else some v

unfoldable pub check_flags : String → String → Flags → Attempt InvokeError InvokeOptions
check_flags id method f = elim (refused is_network f.network) [
  | some n ↦ err (invalid_network n)
  | none ↦ elim (refused is_send f.send) [
    | some s ↦ err (invalid_send s)
    | none ↦ ok (record {
      contract_id = id;
      method = method;
      args_json = f.args_json;
      source_key = f.source_key;
      network = f.network;
      send = f.send;
    })
  ]
]

-- What follows the loop.
unfoldable pub finish_flags : Flags → Attempt InvokeError InvokeOptions
unfolding check_flags
finish_flags f = elim f.contract_id [
  | none ↦ err missing_id
  | some id ↦ elim f.method [ none ↦ err missing_method | some method ↦ check_flags id method f ]
]

unfoldable pub parse_invoke_args : List String → Attempt InvokeError InvokeOptions
unfolding read_flags finish_flags
parse_invoke_args args = elim (read_flags args no_flags) [ ok f ↦ finish_flags f | err e ↦ err e ]

abbrev pub is_upper : Char → Bool
is_upper c = leb 65 (code c) && leb (code c) 90

abbrev pub is_lower : Char → Bool
is_lower c = leb 97 (code c) && leb (code c) 122

abbrev pub is_digit : Char → Bool
is_digit c = leb 48 (code c) && leb (code c) 57

abbrev pub is_alphabetic : Char → Bool
is_alphabetic c = is_upper c || is_lower c

-- `'A'..='Z'` and `'2'..='7'`
abbrev pub is_base32 : Char → Bool
is_base32 c = is_upper c || (leb 50 (code c) && leb (code c) 55)

-- `chars().all(..)`
unfoldable pub all_chars : (Char → Bool) → String → Bool
all_chars p String.[] = true
all_chars p (String.◌∷◌ c s) = let rest = all_chars p s in p c && rest

unfoldable pub validate_contract_id : String → Attempt InvokeError (Unit {0})
unfolding all_chars
validate_contract_id id =
    if not (starts_with id "C")
    then err id_prefix
    else if not (len id == 56)
    then err id_length
    else if not (all_chars is_base32 id)
    then err id_characters
    else ok tt

-- `[a-zA-Z_][a-zA-Z0-9_]*`
unfoldable pub is_valid_arg_name : String → Bool
unfolding all_chars
is_valid_arg_name String.[] = false
is_valid_arg_name (String.◌∷◌ c s) =
    (is_alphabetic c || (code c == 95))
    && all_chars (λ d. is_alphabetic d || is_digit d || (code d == 95)) s

-- A `serde_json::Value`: a number has its decimal text and whether it fits in an `i64` or a `u64`; the
-- text of an array or of a nested object is `to_string`'s.
pub data Json : Type 0 where
  null : Json
  bool : Bool → Json
  number : Bool → String → Json
  string : String → Json
  compound : Option String → Json

-- What `from_str` returns.
pub data Parsed : Type 0 where
  invalid other : Parsed
  object : List (String × Json) → Parsed

unfoldable pub render : String → Json → Attempt InvokeError String
render name null = ok "null"
render name (bool true) = ok "true"
render name (bool false) = ok "false"
render name (number true text) = ok text
render name (number false text) = err (number_out_of_range name)
render name (string s) = ok s
render name (compound (some text)) = ok text
render name (compound none) = err not_serialized

unfoldable pub render_all : List (String × Json) → Attempt InvokeError (List String)
unfolding render is_valid_arg_name
render_all [] = ok []
render_all ((name, value) ∷ rest) =
    let others = render_all rest in
    elim (is_valid_arg_name name) [
      | false ↦ err (invalid_argument_name name)
      | true ↦ elim (render name value) [
        | err e ↦ err e
        | ok text ↦ elim others [ err e ↦ err e | ok out ↦ ok (("--" <> name) ∷ text ∷ out) ]
      ]
    ]

unfoldable pub args_of : Parsed → Attempt InvokeError (List String)
unfolding render_all
args_of invalid = err not_json
args_of other = err not_object
args_of (object fields) = render_all fields

unfoldable pub method_args_from_json :
    (String → Parsed) → String → Attempt InvokeError (List String)
unfolding args_of
method_args_from_json parse text = args_of (parse text)

abbrev pub send_args : Option String → List String
send_args none = []
send_args (some send) = "--send" ∷ send ∷ []

unfoldable pub build_stellar_args : InvokeOptions → NetworkConfig → List String → List String
build_stellar_args opts network method_args =
    "contract"
    ∷ "invoke"
    ∷ "--id"
    ∷ opts.contract_id
    ∷ "--rpc-url"
    ∷ network.rpc_url
    ∷ "--network-passphrase"
    ∷ network.network_passphrase
    ∷ (send_args opts.send ++ "--" ∷ opts.method ∷ method_args)

-- A key that passes the shape test.
abbrev pub checked_key : String → String → Attempt InvokeError ResolvedKey
checked_key source key = elim (validate_secret_key key) [
  | ok _ ↦ ok (record { secret = key; source = source })
  | err e ↦ err (invalid_key source)
]

-- The loop over the two names of the encrypted vault.
unfoldable pub encrypted_key : EncryptedVault → List String → Attempt InvokeError ResolvedKey
unfolding retrieve_secret_key validate_secret_key
encrypted_key v [] = err no_signing_key
encrypted_key v (name ∷ names) = elim (retrieve_secret_key v name) [
  | some key ↦ checked_key "encrypted vault" key
  | none ↦ encrypted_key v names
]

abbrev pub from_encrypted : Option EncryptedVault → Attempt InvokeError ResolvedKey
from_encrypted none = err no_signing_key
from_encrypted (some v) = encrypted_key v ("admin_secret_key" ∷ "master_secret_key" ∷ [])

unfoldable pub resolve_source_key :
    Option String → SecureVault → Option EncryptedVault → Attempt InvokeError ResolvedKey
unfolding encrypted_key validate_secret_key
resolve_source_key (some key) vault encrypted = checked_key "--source-key flag" key
resolve_source_key none vault encrypted = elim vault.admin_secret_key [
  | none ↦ from_encrypted encrypted
  | some key ↦
      if str_eq key ""
      then from_encrypted encrypted
      else checked_key "SOROBAN_ADMIN_SECRET_KEY (SecureVault)" key
]

-- The child process that `handle` starts.
pub record Command : Type 0 where
  pub program : String
  pub args : List String
  pub env : List (String × String)

unfoldable pub method_args_of :
    (String → Parsed) → Option String → Attempt InvokeError (List String)
unfolding method_args_from_json
method_args_of parse none = ok []
method_args_of parse (some text) = method_args_from_json parse text

abbrev pub active_network :
    (String → Option String) → Option String → Attempt InvokeError NetworkConfig
active_network env network =
    let config = from_env env in
    elim (get_active_network (record config { network = unwrap_or network config.network })) [
      | ok n ↦ ok n
      | err e ↦ err unknown_network
    ]

abbrev pub command_of : InvokeOptions → NetworkConfig → List String → ResolvedKey → Command
command_of opts network method_args key = record {
  program = "stellar";
  args = build_stellar_args opts network method_args;
  env = ("STELLAR_ACCOUNT", key.secret) ∷ ("SOROBAN_ACCOUNT", key.secret) ∷ [];
}

-- `handle`, for arguments that are not empty, up to the child process; `encrypted` is the encrypted vault
-- of the environment, where it can be made.
unfoldable pub prepare :
    (String → Parsed)
    → (String → Option String)
    → Option EncryptedVault
    → List String
    → Attempt InvokeError Command
unfolding parse_invoke_args validate_contract_id method_args_of resolve_source_key
    build_stellar_args from_env get_active_network vault_from_env
prepare parse env encrypted args = parse_invoke_args args then λ opts.
    validate_contract_id opts.contract_id then λ _.
    method_args_of parse opts.args_json then λ method_args.
    active_network env opts.network then λ network.
    resolve_source_key opts.source_key (vault_from_env env) encrypted then λ key.
    ok (command_of opts network method_args key)
