-- ===== src/Tools/Strkey.antt =====
-- The strkey codec of crates/tools/src/signing_request.rs: keys as texts of base32 with a checksum. The
-- bit operations are written with sums, products, quotients and remainders by powers of two; `|` joins
-- bits that do not overlap.
pub mod Letters
pub mod Digits
pub mod Blocks
pub mod Checksum
pub mod RoundTrip
use Prim.Native.String.{len, char_at}
use Prim.Native.Char.{Char, code}
use orbit_chain_contracts.Common.{
  ℕ, zero, suc, ◌+◌, ◌-◌, ◌*◌, ◌/◌, ◌%◌, ◌^◌, String, Bool, true, false, not, ◌&&◌, Option, none,
  some, List, [], ◌∷◌, ◌++◌, ◌==◌, leb, length, if◌then◌else◌,
}
use orbit_chain_contracts.Tools.Action.{Attempt, ok, err}

pub data StrkeyError : Type 0 where
  wrong_length invalid_character wrong_size out_of_range checksum_mismatch : StrkeyError

abbrev pub crockford_alphabet : String
crockford_alphabet = "ABCDEFGHIJKLMNOPQRSTUVWXYZ234567"

abbrev pub strkey_decoded_len : ℕ
strkey_decoded_len = 35

-- `6 << 3`
abbrev pub ed25519_public_version_byte : ℕ
ed25519_public_version_byte = 48

-- `^` on the low `n` bits.
unfoldable pub xor : ℕ → ℕ → ℕ → ℕ
xor zero a b = 0
xor (suc n) a b = (a % 2 + b % 2) % 2 + 2 * xor n (a / 2) (b / 2)

-- One round on a `u16`: `<<` drops the bit that leaves it.
unfoldable pub crc_round : ℕ → ℕ
crc_round crc =
    let shifted = (crc * 2) % 65536 in if leb 32768 crc then xor 16 shifted 4129 else shifted

unfoldable pub crc_rounds : ℕ → ℕ → ℕ
crc_rounds zero crc = crc
crc_rounds (suc n) crc = crc_rounds n (crc_round crc)

-- The loop over the bytes.
unfoldable pub crc_from : ℕ → List ℕ → ℕ
crc_from crc [] = crc
crc_from crc (b ∷ bs) = crc_from (crc_rounds 8 (xor 16 crc (b * 256))) bs

unfoldable pub crc16_xmodem : List ℕ → ℕ
crc16_xmodem bytes = crc_from 0 bytes

-- `u32`
abbrev word : ℕ
word = 4294967296

-- The value of a character.
unfoldable pub digit_of : Char → Option ℕ
digit_of c =
    if leb 65 (code c) && leb (code c) 90
    then some (code c - 65)
    else if leb 50 (code c) && leb (code c) 55
    then some (26 + code c - 50)
    else none

-- The accumulator takes five bits more, and gives a byte if it has eight.
unfoldable pub feed : ℕ → ℕ → ℕ → Option ℕ × ℕ × ℕ
feed acc bits v =
    let acc' = (acc * 32) % word + v in
    let left = bits + 5 - 8 in
    if leb 8 (bits + 5)
    then (some ((acc' / 2 ^ left) % 256), acc' % 2 ^ left, left)
    else (none, acc', bits + 5)

abbrev pub prepend : ℕ → Attempt StrkeyError (List ℕ) → Attempt StrkeyError (List ℕ)
prepend b (ok bs) = ok (b ∷ bs)
prepend b (err e) = err e

abbrev pub push_byte : Option ℕ → Attempt StrkeyError (List ℕ) → Attempt StrkeyError (List ℕ)
push_byte none r = r
push_byte (some b) r = prepend b r

-- The loop over the characters.
unfoldable pub decode_from : ℕ → ℕ → String → Attempt StrkeyError (List ℕ)
decode_from acc bits String.[] = ok []
decode_from acc bits (String.◌∷◌ c s) = elim (digit_of c) [
  | none ↦ err invalid_character
  | some v ↦ let (byte, acc', bits') = feed acc bits v in push_byte byte (decode_from acc' bits' s)
]

-- `split_at(33)`
unfoldable pub split_at : ℕ → List ℕ → List ℕ × List ℕ
split_at zero xs = ([], xs)
split_at (suc n) [] = ([], [])
split_at (suc n) (x ∷ xs) = let (a, b) = split_at n xs in (x ∷ a, b)

-- `u16::from_le_bytes`, then the comparison; the key is the body without the version byte.
unfoldable pub check_crc : List ℕ → List ℕ → Attempt StrkeyError (List ℕ)
check_crc (version ∷ key) (low ∷ high ∷ []) =
    if (low + 256 * high) == crc16_xmodem (version ∷ key) then ok key else err checksum_mismatch
check_crc _ _ = err out_of_range

unfoldable pub check_decoded : List ℕ → Attempt StrkeyError (List ℕ)
check_decoded decoded =
    if not (length decoded == strkey_decoded_len)
    then err wrong_size
    else (let (signed_body, crc_part) = split_at 33 decoded in check_crc signed_body crc_part)

unfoldable pub strkey_decode : String → Attempt StrkeyError (List ℕ)
strkey_decode strkey =
    if not (len strkey == 56)
    then err wrong_length
    else elim (decode_from 0 0 strkey) [ ok decoded ↦ check_decoded decoded | err e ↦ err e ]

-- The inner loop: five bits at a time, as long as there are five; the result is the digits and the bits
-- that are left. Each round takes bits, so as many rounds as bits are enough.
unfoldable pub emit : ℕ → ℕ → ℕ → List ℕ × ℕ
emit zero acc bits = ([], bits)
emit (suc n) acc bits =
    let (rest, left) = emit n acc (bits - 5) in
    if leb 5 bits then ((acc / 2 ^ (bits - 5)) % 32 ∷ rest, left) else ([], bits)

-- The loop over the bytes; `<<` drops the bits that leave the `u32`.
unfoldable pub digits_from : ℕ → ℕ → List ℕ → List ℕ
digits_from acc bits [] = []
digits_from acc bits (b ∷ bs) =
    let acc' = (acc * 256) % word + b in
    let (digits, left) = emit (bits + 8) acc' (bits + 8) in digits ++ digits_from acc' left bs

unfoldable pub text_of_digits : List ℕ → String
text_of_digits [] = ""
text_of_digits (d ∷ ds) = String.◌∷◌ (char_at crockford_alphabet d) (text_of_digits ds)

-- The checksum, the low byte first.
abbrev pub with_crc : List ℕ → List ℕ
with_crc body = body ++ crc16_xmodem body % 256 ∷ crc16_xmodem body / 256 % 256 ∷ []

unfoldable pub strkey_encode : List ℕ → ℕ → String
strkey_encode key type_byte = text_of_digits (digits_from 0 0 (with_crc (type_byte ∷ key)))
