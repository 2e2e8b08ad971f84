-- ===== src/Scenario/Signing.antt =====
-- A signing request of crates/tools/src/signing_request.rs, signed and verified at a concrete input.
use Prim.Native.String.{char_at}
use Prim.Native.Char.{Char, code}
use orbit_chain_contracts.Common.{
  ℕ, zero, suc, ◌+◌, ◌-◌, ◌*◌, ◌/◌, ◌%◌, ◌<◌, pos, ◌≡◌, refl, arith, String, Bool, true, false,
  ◌&&◌, Option, none, some, List, [], ◌∷◌, length, leb, ◌==◌, if◌then◌else◌,
}
use orbit_chain_contracts.Tools.Action.{ok}
use orbit_chain_contracts.Tools.Strkey.{strkey_encode}
use orbit_chain_contracts.Tools.Strkey.RoundTrip.{AreBytes}
use orbit_chain_contracts.Tools.Strkey.Letters.{all_below, all_below-test}
use orbit_chain_contracts.Tools.Signing.{
  SigningRequest, Crates, verify, signed_by, sign_server_side,
}
use orbit_chain_contracts.Tools.Signing.Verified.{
  IsLawful, IsSeed, sign_server_side-verify, sign_server_side-strkey_encode,
}

-- Hexadecimal digits.
abbrev hex_letter : ℕ → Char
hex_letter d = char_at "0123456789abcdef" d

hex_value : Char → Option ℕ
hex_value c =
    if leb 48 (code c) && leb (code c) 57
    then some (code c - 48)
    else if leb 97 (code c) && leb (code c) 102
    then some (code c - 87)
    else none

hex_text : List ℕ → String
hex_text [] = ""
hex_text (b ∷ bs) =
    String.◌∷◌ (hex_letter (b / 16)) (String.◌∷◌ (hex_letter (b % 16)) (hex_text bs))

abbrev hex_byte : Option ℕ → Option ℕ → Option (List ℕ) → Option (List ℕ)
hex_byte (some a) (some b) (some bs) = some ((16 * a + b) ∷ bs)
hex_byte _ _ _ = none

hex_read : String → Option (List ℕ)
hex_read String.[] = some []
hex_read (String.◌∷◌ c String.[]) = none
hex_read (String.◌∷◌ c (String.◌∷◌ d s)) = hex_byte (hex_value c) (hex_value d) (hex_read s)

abbrev is_value : Option ℕ → ℕ → Bool
is_value none d = false
is_value (some v) d = v == d

is_value-some : (o : Option ℕ) (d : ℕ) → is_value o d ≡ true → o ≡ some d
is_value-some none d h = ground (arith, h)
is_value-some (some v) d h = ground (arith, h)

hex_letters : all_below (λ d. is_value (hex_value (hex_letter d)) d) 16 ≡ true
unfolding all_below hex_value
hex_letters = refl

hex_letter_lem : (d : ℕ) → d < 16 → hex_value (hex_letter d) ≡ some d
hex_letter_lem d h =
    is_value-some (hex_value (hex_letter d)) d
      (all_below-test (λ k. is_value (hex_value (hex_letter k)) k) 16 hex_letters d h)

hex_read-hex_text : (bs : List ℕ) → AreBytes bs → hex_read (hex_text bs) ≡ some bs
unfolding hex_read hex_text AreBytes
hex_read-hex_text [] h = refl
hex_read-hex_text (b ∷ bs) (h, hs) =
    let high = hex_letter_lem (b / 16) (omega (arith, h)) in
    let low = hex_letter_lem (b % 16) (omega arith) in
    let rest = hex_read-hex_text bs hs in
    let whole : 16 * (b / 16) + b % 16 ≡ b = omega arith in ground (arith, high, low, rest, whole)

-- A scheme of signatures that keeps the promises and no secret: the public key is the seed.
zeros : ℕ → List ℕ
zeros zero = []
zeros (suc n) = 0 ∷ zeros n

zeros-AreBytes : (n : ℕ) → AreBytes (zeros n)
unfolding zeros AreBytes
zeros-AreBytes zero = tt
zeros-AreBytes (suc n) = (omega arith, zeros-AreBytes n)

abbrev crates : Crates
crates = record {
  verifying_key = λ seed. seed;
  is_verifying_key = λ key. length key == 32;
  sign = λ seed message. zeros 64;
  verifies = λ key message signature. length signature == 64;
  hex_encode = hex_text;
  hex_decode = hex_read;
}

crates-IsLawful : IsLawful crates
unfolding zeros
crates-IsLawful = record {
  key_bytes = λ seed h. h;
  key_valid = λ seed h. let size = h.1 in ground (arith, size);
  signature_bytes = λ seed message h. (zeros-AreBytes 64, refl);
  signature_verifies = λ seed message h. refl;
  hex = λ bs h. hex_read-hex_text bs h;
}

abbrev request : SigningRequest
request = record {
  id = "req_1700000000000";
  network = "testnet";
  transaction_xdr = "AAAAAA==G7150";
  description = "Donate 50 XLM to campaign #1";
  created_at = 1700000000;
}

abbrev seed : List ℕ
seed = zeros 32

seed-IsSeed : IsSeed seed
unfolding zeros
seed-IsSeed = (zeros-AreBytes 32, refl)

signed_example :
    (sign_server_side crates request (strkey_encode seed 144) (pos 1700000001)
      ≡ ok (signed_by crates request seed (pos 1700000001)))
    × (verify crates (signed_by crates request seed (pos 1700000001)) ≡ ok true)
signed_example =
    sign_server_side-strkey_encode crates crates-IsLawful request seed (pos 1700000001) seed-IsSeed

signed :
    sign_server_side crates request (strkey_encode seed 144) (pos 1700000001)
    ≡ ok (signed_by crates request seed (pos 1700000001))
signed =
    (sign_server_side-strkey_encode crates crates-IsLawful request seed (pos 1700000001)
      seed-IsSeed).0

sign_server_side-verify_example :
    (verify crates (signed_by crates request seed (pos 1700000001)) ≡ ok true)
    × ((signed_by crates request seed (pos 1700000001)).transaction_xdr ≡ "AAAAAA==G7150")
    × ((signed_by crates request seed (pos 1700000001)).request_id ≡ "req_1700000000000")
sign_server_side-verify_example =
    sign_server_side-verify crates crates-IsLawful request (strkey_encode seed 144) (pos 1700000001)
      (signed_by crates request seed (pos 1700000001)) signed
