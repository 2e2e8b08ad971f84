-- ===== src/Tools/Signing/Verified.antt =====
-- What is signed on the server is verified with the public key alone (crates/tools/src/signing_request.rs).
use Prim.Native.String.{len}
use Prim.Native.String.append.{nil as append-nil, cons as append-cons}
use orbit_chain_contracts.Tools.Strkey.Letters.{letter}
use text.Mathlib.Text.{starts_with}
use text.Mathlib.TextEquality.{eq_iff}
use text.Mathlib.TextPositions.{starts_with_of_prefix}
use orbit_chain_contracts.Common.{
  ℕ, ℤ, ◌/◌, ◌%◌, ◌≡◌, ap, sym, ◌∙◌, subst, String, some, List, [], ◌∷◌, ◌++◌, arith, length, true,
  false, str_eq, Bool-cases, inl, inr,
}
use orbit_chain_contracts.Tools.Action.{ok, Attempt-cases}
use orbit_chain_contracts.Tools.Config.{validate_secret_key}
use orbit_chain_contracts.Tools.Strkey.{
  strkey_decode, strkey_encode, digits_from, emit, text_of_digits, crc16_xmodem,
}
use orbit_chain_contracts.Tools.Strkey.RoundTrip.{AreBytes, strkey_decode-strkey_encode}
use orbit_chain_contracts.Tools.Signing.{
  SigningRequest, ServerSignedTransaction, Crates, verify, signed_by, sign_server_side,
}
use orbit_chain_contracts.Tools.Signing.Decoded.{strkey_decode-AreBytes}

-- A seed: 32 bytes.
abbrev pub IsSeed : List ℕ → Type 0
IsSeed seed = AreBytes seed × (length seed ≡ 32)

-- What RFC 8032 and the documentation of hex promise: the sizes of keys and signatures, that a signature of
-- a key is verified with its public key, and that what is encoded is decoded.
pub record IsLawful (c : Crates) : Type 0 where
  pub key_bytes :
      (seed : List ℕ)
      → IsSeed seed
      → AreBytes (c.verifying_key seed) × (length (c.verifying_key seed) ≡ 32)
  pub key_valid : (seed : List ℕ) → IsSeed seed → c.is_verifying_key (c.verifying_key seed) ≡ true
  pub signature_bytes :
      (seed : List ℕ) (message : String)
      → IsSeed seed
      → AreBytes (c.sign seed message) × (length (c.sign seed message) ≡ 64)
  pub signature_verifies :
      (seed : List ℕ) (message : String)
      → IsSeed seed
      → c.verifies (c.verifying_key seed) message (c.sign seed message) ≡ true
  pub hex : (bs : List ℕ) → AreBytes bs → c.hex_decode (c.hex_encode bs) ≡ some bs

not_empty : (s : String) → len s ≡ 56 → str_eq s "" ≡ false
not_empty s h = elim (Bool-cases (str_eq s "")) [
  | inl e ↦ let size = ap len ((eq_iff s "").0 e) in absurd (omega (arith, h, size))
  | inr e ↦ e
]

verify-signed_by :
    (c : Crates)
    → IsLawful c
    → (r : SigningRequest) (seed : List ℕ) (now : ℤ) → IsSeed seed
    → verify c (signed_by c r seed now) ≡ ok true
unfolding verify signed_by
verify-signed_by c law r seed now h =
    let (bytes, size) = law.key_bytes seed h in
    let (decoded, long) =
      strkey_decode-strkey_encode (c.verifying_key seed) 48 bytes size (omega arith) in
    let filled = not_empty (strkey_encode (c.verifying_key seed) 48) long in
    let valid = law.key_valid seed h in
    let (sig_bytes, sig_size) = law.signature_bytes seed r.transaction_xdr h in
    let hexed = law.hex (c.sign seed r.transaction_xdr) sig_bytes in
    let verified = law.signature_verifies seed r.transaction_xdr h in
    ground (arith, filled, decoded, valid, sig_size, hexed, verified)

-- A secret key that signs has a seed.
sign_server_side-inv :
    (c : Crates) (r : SigningRequest) (secret_key : String) (now : ℤ)
    (signed : ServerSignedTransaction)
    → sign_server_side c r secret_key now ≡ ok signed
    → (seed : List ℕ) × (strkey_decode secret_key ≡ ok seed) × (signed ≡ signed_by c r seed now)
unfolding sign_server_side
sign_server_side-inv c r secret_key now signed h = elim (Bool-cases (str_eq secret_key "")) [
  | inl e ↦ ground (arith, e, h)
  | inr e ↦ elim (Attempt-cases (validate_secret_key secret_key)) [
    | inr (_, f) ↦ ground (arith, e, f, h)
    | inl (_, f) ↦ elim (Attempt-cases (strkey_decode secret_key)) [
      | inr (_, g) ↦ ground (arith, e, f, g, h)
      | inl (seed, g) ↦
          let same : signed_by c r seed now ≡ signed = ground (arith, e, f, g, h) in
          (seed, g, sym same)
    ]
  ]
]

strkey_encode-secret : (seed : List ℕ) → starts_with (strkey_encode seed 144) "S" ≡ true
unfolding strkey_encode digits_from emit text_of_digits
strkey_encode-secret seed =
    let crc = crc16_xmodem (144 ∷ seed) in
    let rest = text_of_digits (digits_from 144 3 (seed ++ crc % 256 ∷ crc / 256 % 256 ∷ [])) in
    let joined =
      append-cons (letter 18) String.[] rest ∙ ap (String.◌∷◌ (letter 18)) (append-nil rest) in
    starts_with_of_prefix "S" (strkey_encode seed 144) (rest, joined)

-- For crates that do what they promise, whatever the server signs is verified, with the public key in
-- the signed transaction alone; it names the request and carries the transaction that was signed.
pub sign_server_side-verify :
    (c : Crates)
    → IsLawful c
    → (r : SigningRequest) (secret_key : String) (now : ℤ) (signed : ServerSignedTransaction)
    → sign_server_side c r secret_key now ≡ ok signed
    → (verify c signed ≡ ok true)
      × (signed.transaction_xdr ≡ r.transaction_xdr)
      × (signed.request_id ≡ r.id)
unfolding signed_by
sign_server_side-verify c law r secret_key now signed h =
    let (seed, decoded, e) = sign_server_side-inv c r secret_key now signed h in
    let good = verify-signed_by c law r seed now (strkey_decode-AreBytes secret_key seed decoded) in
    (
      subst (λ t. verify c t ≡ ok true) (sym e) good,
      ap (λ t. t.transaction_xdr) e,
      ap (λ t. t.request_id) e,
    )

-- For every seed of 32 bytes, the server signs with its strkey (version byte `18 << 3`), with the
-- signature of that seed, and the result is verified, for crates that do what they promise.
pub sign_server_side-strkey_encode :
    (c : Crates)
    → IsLawful c
    → (r : SigningRequest) (seed : List ℕ) (now : ℤ) → IsSeed seed
    → (sign_server_side c r (strkey_encode seed 144) now ≡ ok (signed_by c r seed now))
      × (verify c (signed_by c r seed now) ≡ ok true)
unfolding sign_server_side validate_secret_key
sign_server_side-strkey_encode c law r seed now (bytes, size) =
    let (decoded, long) = strkey_decode-strkey_encode seed 144 bytes size (omega arith) in
    let filled = not_empty (strkey_encode seed 144) long in
    let prefix = strkey_encode-secret seed in
    (ground (arith, filled, long, prefix, decoded), verify-signed_by c law r seed now (bytes, size))
