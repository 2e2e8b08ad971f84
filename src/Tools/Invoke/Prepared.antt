-- ===== src/Tools/Invoke/Prepared.antt =====
-- What the child process of `invoke` (crates/tools/src/invoke.rs) is given.
use Prim.Native.String.{len}
use text.Mathlib.Text.{starts_with}
use text.Mathlib.TextEquality.{eq_iff}
use orbit_chain_contracts.Common.{
  String, true, Option, none, some, List, [], ◌∷◌, ◌++◌, ◌≡◌, ◌≤◌, refl, sym, ap, ◌∙◌, arith,
  unwrap_or, ◌⊎◌, inl, inr, Bool-cases, Option-cases, str_eq,
}
use orbit_chain_contracts.Tools.Action.{Attempt-cases, Attempt, ok, err}
use orbit_chain_contracts.Tools.Config.{
  NetworkConfig, EnvironmentConfig, from_env, get_active_network, SecureVault, vault_from_env,
  EncryptedVault, retrieve_secret_key, validate_secret_key,
}
use orbit_chain_contracts.Tools.Invoke.{
  InvokeOptions, ResolvedKey, Parsed, parse_invoke_args, validate_contract_id, all_chars, is_base32,
  build_stellar_args, checked_key, encrypted_key, from_encrypted, resolve_source_key, Command,
  method_args_of, active_network, ◌then◌, prepare,
}
use orbit_chain_contracts.Tools.Invoke.Arguments.{
  ok_injective, AreMethodArgs, method_args_of-AreMethodArgs,
}

then_split :
    {E A B : Type 0} (m : Attempt E A) (f : A → Attempt E B) {b : B}
    → m then f ≡ ok b
    → (a : A) × (m ≡ ok a) × (f a ≡ ok b)
then_split (ok a) f h = (a, refl, h)
then_split (err e) f h = absurd (ground arith)

checked_key_lem :
    (source key : String) (k : ResolvedKey)
    → checked_key source key ≡ ok k
    → (starts_with k.secret "S" ≡ true) × (56 ≤ len k.secret)
unfolding validate_secret_key
checked_key_lem source key k h = (ground arith, ground arith)

encrypted_key_lem :
    (v : EncryptedVault) (names : List String) (k : ResolvedKey)
    → encrypted_key v names ≡ ok k
    → (starts_with k.secret "S" ≡ true) × (56 ≤ len k.secret)
unfolding encrypted_key
encrypted_key_lem v [] k h = absurd (ground arith)
encrypted_key_lem v (name ∷ names) k h = elim (Option-cases (retrieve_secret_key v name)) [
  | inl q ↦ encrypted_key_lem v names k (ground arith)
  | inr (key, q) ↦ checked_key_lem "encrypted vault" key k (ground arith)
]

from_encrypted_lem :
    (v : Option EncryptedVault) (k : ResolvedKey)
    → from_encrypted v ≡ ok k
    → (starts_with k.secret "S" ≡ true) × (56 ≤ len k.secret)
from_encrypted_lem none k h = absurd (ground arith)
from_encrypted_lem (some v) k h =
    encrypted_key_lem v ("admin_secret_key" ∷ "master_secret_key" ∷ []) k h

resolve_source_key_lem :
    (explicit : Option String) (vault : SecureVault) (encrypted : Option EncryptedVault)
    (k : ResolvedKey)
    → resolve_source_key explicit vault encrypted ≡ ok k
    → (starts_with k.secret "S" ≡ true) × (56 ≤ len k.secret)
unfolding resolve_source_key
resolve_source_key_lem (some key) vault encrypted k h = checked_key_lem "--source-key flag" key k h
resolve_source_key_lem none vault encrypted k h = elim (Option-cases vault.admin_secret_key) [
  | inl q ↦ from_encrypted_lem encrypted k (ground arith)
  | inr (key, q) ↦ elim (Bool-cases (str_eq key "")) [
    | inl empty ↦ from_encrypted_lem encrypted k (ground arith)
    | inr given ↦ checked_key_lem "SOROBAN_ADMIN_SECRET_KEY (SecureVault)" key k (ground arith)
  ]
]

validate_contract_id_lem :
    (id : String)
    → validate_contract_id id ≡ ok tt
    → (starts_with id "C" ≡ true) × (len id ≡ 56) × (all_chars is_base32 id ≡ true)
unfolding validate_contract_id
validate_contract_id_lem id h = (ground arith, ground arith, ground arith)

-- The network of a name.
abbrev pub IsNetwork : EnvironmentConfig → String → NetworkConfig → Type 0
IsNetwork config name n =
    ((name ≡ "testnet") × (n ≡ config.testnet)) ⊎ ((name ≡ "mainnet") × (n ≡ config.mainnet))

get_active_network-IsNetwork :
    (c : EnvironmentConfig) (n : NetworkConfig)
    → get_active_network c ≡ ok n
    → IsNetwork c c.network n
unfolding get_active_network
get_active_network-IsNetwork c n h = elim (Bool-cases (str_eq c.network "testnet")) [
  | inl a ↦ inl ((eq_iff c.network "testnet").0 a, ground arith)
  | inr a ↦ elim (Bool-cases (str_eq c.network "mainnet")) [
    | inl b ↦ inr ((eq_iff c.network "mainnet").0 b, ground arith)
    | inr b ↦ absurd (ground arith)
  ]
]

abbrev chosen : EnvironmentConfig → Option String → EnvironmentConfig
chosen c given = record c { network = unwrap_or given c.network }

active_network-IsNetwork :
    (env : String → Option String) (given : Option String) (n : NetworkConfig)
    → active_network env given ≡ ok n
    → IsNetwork (from_env env) (unwrap_or given (from_env env).network) n
active_network-IsNetwork env given n h =
    elim (Attempt-cases (get_active_network (chosen (from_env env) given))) [
      | inl (m, q) ↦ get_active_network-IsNetwork (chosen (from_env env) given) n (ground arith)
      | inr (e, q) ↦ absurd (ground arith)
    ]

resolve_source_key-given :
    (key : String) (vault : SecureVault) (encrypted : Option EncryptedVault) (k : ResolvedKey)
    → resolve_source_key (some key) vault encrypted ≡ ok k
    → k.secret ≡ key
unfolding resolve_source_key validate_secret_key
resolve_source_key-given key vault encrypted k h = ground arith

-- The key that was given as an option is the one that is used.
abbrev pub IsGiven : Option String → String → Type 0
IsGiven none secret = Unit
IsGiven (some key) secret = secret ≡ key

resolve_source_key-IsGiven :
    (given : Option String) (vault : SecureVault) (encrypted : Option EncryptedVault)
    (k : ResolvedKey)
    → resolve_source_key given vault encrypted ≡ ok k
    → IsGiven given k.secret
resolve_source_key-IsGiven none vault encrypted k h = tt
resolve_source_key-IsGiven (some key) vault encrypted k h =
    resolve_source_key-given key vault encrypted k h

abbrev pub sent : Option String → List String
sent none = []
sent (some send) = "--send" ∷ send ∷ []

-- The child's arguments, part by part.
abbrev pub argv : InvokeOptions → NetworkConfig → List String → List String
argv opts network method_args =
    "contract"
    ∷ "invoke"
    ∷ "--id"
    ∷ opts.contract_id
    ∷ "--rpc-url"
    ∷ network.rpc_url
    ∷ "--network-passphrase"
    ∷ network.network_passphrase
    ∷ (sent opts.send ++ "--" ∷ opts.method ∷ method_args)

build_stellar_args-argv :
    (opts : InvokeOptions) (network : NetworkConfig) (method_args : List String)
    → build_stellar_args opts network method_args ≡ argv opts network method_args
unfolding build_stellar_args
build_stellar_args-argv opts network method_args = elim (Option-cases opts.send) [
  | inl e ↦ rw e refl
  | inr (send, e) ↦ rw e refl
]

-- What a command that `invoke` prepares consists of.
pub record IsPrepared (parse : String → Parsed) (env : String → Option String)
    (encrypted : Option EncryptedVault) (args : List String) (c : Command) : Type 0 where
  pub opts : InvokeOptions
  pub network : NetworkConfig
  pub method_args : List String
  pub secret : String
  pub parsed : parse_invoke_args args ≡ ok opts
  pub id_shape :
      (starts_with opts.contract_id "C" ≡ true)
      × (len opts.contract_id ≡ 56)
      × (all_chars is_base32 opts.contract_id ≡ true)
  pub asked_network :
      IsNetwork (from_env env) (unwrap_or opts.network (from_env env).network) network
  pub arguments : AreMethodArgs parse opts.args_json method_args
  pub given_key : IsGiven opts.source_key secret
  pub key_shape : (starts_with secret "S" ≡ true) × (56 ≤ len secret)
  pub same_args : c.args ≡ argv opts network method_args
  pub secret_env : c.env ≡ ("STELLAR_ACCOUNT", secret) ∷ ("SOROBAN_ACCOUNT", secret) ∷ []
  pub same_program : c.program ≡ "stellar"

-- A command that `invoke` prepares is of options that the arguments give; the contract identifier starts
-- with C and has 56 characters of base32. The network is the configured one of the name that the options,
-- or else the environment, ask for. The child's arguments are exactly: contract, invoke, the identifier,
-- the network's address and passphrase, the send option if there is one, `--`, the method, and, for each
-- field of the JSON object in order, `--` with its valid name and then the text of its value; none of these
-- parts is taken from the key. The key starts with S and has at least 56 bytes, is the one of the options where
-- they have one, and is the value of the two variables of the child's environment.
pub prepare-IsPrepared :
    (parse : String → Parsed) (env : String → Option String) (encrypted : Option EncryptedVault)
    (args : List String) (c : Command)
    → prepare parse env encrypted args ≡ ok c
    → IsPrepared parse env encrypted args c
unfolding prepare
prepare-IsPrepared parse env encrypted args c h =
    let (opts, parsed, h₁) = then_split (parse_invoke_args args) _ h in
    let (_, shape, h₂) = then_split (validate_contract_id opts.contract_id) _ h₁ in
    let (method_args, rendered, h₃) = then_split (method_args_of parse opts.args_json) _ h₂ in
    let (network, active, h₄) = then_split (active_network env opts.network) _ h₃ in
    let (key, resolved, h₅) =
      then_split (resolve_source_key opts.source_key (vault_from_env env) encrypted) _ h₄ in
    let made = ok_injective h₅ in
    record {
      opts = opts;
      network = network;
      method_args = method_args;
      secret = key.secret;
      parsed = parsed;
      id_shape = validate_contract_id_lem opts.contract_id shape;
      asked_network = active_network-IsNetwork env opts.network network active;
      arguments = method_args_of-AreMethodArgs parse opts.args_json method_args rendered;
      given_key =
          resolve_source_key-IsGiven opts.source_key (vault_from_env env) encrypted key resolved;
      key_shape =
          resolve_source_key_lem opts.source_key (vault_from_env env) encrypted key resolved;
      same_args =
          ap (λ (x : Command). x.args) (sym made)
          ∙ build_stellar_args-argv opts network method_args;
      secret_env = ap (λ (x : Command). x.env) (sym made);
      same_program = ap (λ (x : Command). x.program) (sym made);
    }
