-- ===== src/Tools/Strkey/RoundTrip.antt =====
-- A key that is encoded as a strkey is decoded as it was (crates/tools/src/signing_request.rs).
use Prim.Native.String.{len}
use Prim.Native.String.len.{cons as len-cons}
use orbit_chain_contracts.Common.{
  ℕ, zero, suc, ◌+◌, ◌*◌, ◌/◌, ◌%◌, ◌<◌, ◌≡◌, refl, ap, ◌∙◌, String, List, [], ◌∷◌, ◌++◌, arith,
  length, length-append,
}
use orbit_chain_contracts.Tools.Action.{ok}
use orbit_chain_contracts.Tools.Strkey.{
  crc16_xmodem, prepend, decode_from, digits_from, text_of_digits, check_decoded, strkey_decode,
  strkey_encode,
}
use orbit_chain_contracts.Tools.Strkey.Letters.{letter, letter_lem}
use orbit_chain_contracts.Tools.Strkey.Digits.{shifted, digits_of, block_digits}
use orbit_chain_contracts.Tools.Strkey.Blocks.{decode_block}
use orbit_chain_contracts.Tools.Strkey.Checksum.{check_crc_lem, check_decoded_lem}

-- Each number is a byte.
unfoldable pub AreBytes : List ℕ → Type 0
AreBytes [] = Unit
AreBytes (b ∷ bs) = (b < 256) × AreBytes bs

AreBytes-append : (xs ys : List ℕ) → AreBytes xs → AreBytes ys → AreBytes (xs ++ ys)
unfolding AreBytes
AreBytes-append [] ys h k = k
AreBytes-append (x ∷ xs) ys (h, hs) k = (h, AreBytes-append xs ys hs k)

-- Bytes by fives.
data Fives : List ℕ → Type 0 where
  nothing : Fives []
  five :
      (b₁ b₂ b₃ b₄ b₅ : ℕ) {rest : List ℕ}
      → b₁ < 256
      → b₂ < 256
      → b₃ < 256
      → b₄ < 256
      → b₅ < 256
      → Fives rest
      → Fives (b₁ ∷ b₂ ∷ b₃ ∷ b₄ ∷ b₅ ∷ rest)

by-Fives : (n : ℕ) (bs : List ℕ) → AreBytes bs → length bs ≡ 5 * n → Fives bs
unfolding AreBytes
by-Fives zero [] a h = nothing
by-Fives zero (b ∷ bs) a h = absurd (omega (arith, h))
by-Fives (suc n) (b₁ ∷ b₂ ∷ b₃ ∷ b₄ ∷ b₅ ∷ rest) (h₁, (h₂, (h₃, (h₄, (h₅, a))))) h =
    five b₁ b₂ b₃ b₄ b₅ h₁ h₂ h₃ h₄ h₅ (by-Fives n rest a (omega (arith, h)))
by-Fives (suc n) [] a h = absurd (omega (arith, h))
by-Fives (suc n) (_ ∷ []) a h = absurd (omega (arith, h))
by-Fives (suc n) (_ ∷ _ ∷ []) a h = absurd (omega (arith, h))
by-Fives (suc n) (_ ∷ _ ∷ _ ∷ []) a h = absurd (omega (arith, h))
by-Fives (suc n) (_ ∷ _ ∷ _ ∷ _ ∷ []) a h = absurd (omega (arith, h))

decode-digits_from :
    (acc : ℕ) {bs : List ℕ}
    → Fives bs
    → decode_from 0 0 (text_of_digits (digits_from acc 0 bs)) ≡ ok bs
unfolding digits_from text_of_digits decode_from
decode-digits_from acc nothing = refl
decode-digits_from acc (five b₁ b₂ b₃ b₄ b₅ {rest = rest} h₁ h₂ h₃ h₄ h₅ f) =
    let acc' = shifted (shifted (shifted (shifted (shifted acc b₁) b₂) b₃) b₄) b₅ in
    ap (λ ds. decode_from 0 0 (text_of_digits ds))
      (block_digits acc b₁ b₂ b₃ b₄ b₅ rest h₁ h₂ h₃ h₄ h₅)
    ∙ decode_block b₁ b₂ b₃ b₄ b₅ h₁ h₂ h₃ h₄ h₅ (digits_from acc' 0 rest)
    ∙ ap (λ r. prepend b₁ (prepend b₂ (prepend b₃ (prepend b₄ (prepend b₅ r)))))
        (decode-digits_from acc' f)

len-letter :
    (d : ℕ) (ds : List ℕ) → d < 32 → len (text_of_digits (d ∷ ds)) ≡ suc (len (text_of_digits ds))
unfolding text_of_digits
len-letter d ds h =
    let (_, one) = letter_lem d h in
    let c = len-cons (letter d) (text_of_digits ds) in omega (arith, one, c)

len-block :
    (b₁ b₂ b₃ b₄ b₅ : ℕ) (rest : List ℕ)
    → b₁ < 256
    → b₂ < 256
    → b₃ < 256
    → b₄ < 256
    → b₅ < 256
    → len (text_of_digits (digits_of b₁ b₂ b₃ b₄ b₅ rest)) ≡ 8 + len (text_of_digits rest)
len-block b₁ b₂ b₃ b₄ b₅ rest h₁ h₂ h₃ h₄ h₅ =
    let k₁ : b₁ / 8 < 32 = omega (arith, h₁) in
    let k₂ : (b₁ % 8) * 4 + b₂ / 64 < 32 = omega (arith, h₁, h₂) in
    let k₃ : (b₂ / 2) % 32 < 32 = omega arith in
    let k₄ : (b₂ % 2) * 16 + b₃ / 16 < 32 = omega (arith, h₂, h₃) in
    let k₅ : (b₃ % 16) * 2 + b₄ / 128 < 32 = omega (arith, h₃, h₄) in
    let k₆ : (b₄ / 4) % 32 < 32 = omega arith in
    let k₇ : (b₄ % 4) * 8 + b₅ / 32 < 32 = omega (arith, h₄, h₅) in
    let k₈ : b₅ % 32 < 32 = omega arith in
    len-letter _ _ k₁
    ∙ ap suc (
        len-letter _ _ k₂
        ∙ ap suc (
            len-letter _ _ k₃
            ∙ ap suc (
                len-letter _ _ k₄
                ∙ ap suc (
                    len-letter _ _ k₅
                    ∙ ap suc (
                        len-letter _ _ k₆
                        ∙ ap suc (len-letter _ _ k₇ ∙ ap suc (len-letter _ _ k₈)))))))
    ∙ omega arith

len-digits_from :
    (acc : ℕ) {bs : List ℕ}
    → Fives bs
    → 5 * len (text_of_digits (digits_from acc 0 bs)) ≡ 8 * length bs
unfolding digits_from text_of_digits
len-digits_from acc nothing = refl
len-digits_from acc (five b₁ b₂ b₃ b₄ b₅ {rest = rest} h₁ h₂ h₃ h₄ h₅ f) =
    let acc' = shifted (shifted (shifted (shifted (shifted acc b₁) b₂) b₃) b₄) b₅ in
    let same =
      ap (λ ds. len (text_of_digits ds)) (block_digits acc b₁ b₂ b₃ b₄ b₅ rest h₁ h₂ h₃ h₄ h₅) in
    let more = len-digits_from acc' f in
    let eight = len-block b₁ b₂ b₃ b₄ b₅ (digits_from acc' 0 rest) h₁ h₂ h₃ h₄ h₅ in
    omega (arith, same, more, eight)

strkey_decode-ok :
    (s : String) (decoded : List ℕ)
    → len s ≡ 56
    → decode_from 0 0 s ≡ ok decoded
    → strkey_decode s ≡ check_decoded decoded
unfolding strkey_decode
strkey_decode-ok s decoded h e = ground (arith, h, e)

-- For every key of 32 bytes and every version byte, the encoded strkey is decoded as the key; the text has
-- 56 bytes, so no length, character or checksum of it is refused.
pub strkey_decode-strkey_encode :
    (key : List ℕ) (type_byte : ℕ)
    → AreBytes key
    → length key ≡ 32
    → type_byte < 256
    → (strkey_decode (strkey_encode key type_byte) ≡ ok key)
      × (len (strkey_encode key type_byte) ≡ 56)
unfolding strkey_encode AreBytes
strkey_decode-strkey_encode key type_byte bytes size h =
    let body = type_byte ∷ key in
    let crc = crc16_xmodem body in
    let tail = crc % 256 ∷ (crc / 256 % 256) ∷ [] in
    let total = length-append body tail in
    let whole = AreBytes-append body tail (h, bytes) (omega arith, (omega arith, tt)) in
    let fives = by-Fives 7 (body ++ tail) whole (omega (arith, total, size)) in
    let long = len-digits_from 0 fives in
    let fits : len (text_of_digits (digits_from 0 0 (body ++ tail))) ≡ 56 =
      omega (arith, long, total, size) in
    (
      strkey_decode-ok (text_of_digits (digits_from 0 0 (body ++ tail))) (body ++ tail) fits
            (decode-digits_from 0 fives)
          ∙ check_decoded_lem type_byte crc key size
          ∙ check_crc_lem type_byte key,
      fits,
    )
