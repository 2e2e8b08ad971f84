-- ===== src/Tools/Strkey/Blocks.antt =====
-- Eight characters of base32 as five bytes (crates/tools/src/signing_request.rs).
use orbit_chain_contracts.Common.{
  ℕ, ◌+◌, ◌*◌, ◌/◌, ◌%◌, ◌<◌, ◌≡◌, ap, ◌∙◌, String, Option, none, some, List, arith,
}
use orbit_chain_contracts.Tools.Strkey.{feed, prepend, push_byte, decode_from, text_of_digits}
use orbit_chain_contracts.Tools.Strkey.Digits.{digits_of}
use orbit_chain_contracts.Tools.Strkey.Letters.{letter, decode_letter}

feed₁ : (b : ℕ) → b < 256 → feed 0 0 (b / 8) ≡ (none, b / 8, 5)
unfolding feed
feed₁ b h = ground (arith, h)

feed₂ : (b c : ℕ) → b < 256 → c < 256 → feed (b / 8) 5 ((b % 8) * 4 + c / 64) ≡ (some b, c / 64, 2)
unfolding feed
feed₂ b c h k = ground (arith, h, k)

feed₃ : (c : ℕ) → c < 256 → feed (c / 64) 2 ((c / 2) % 32) ≡ (none, c / 2, 7)
unfolding feed
feed₃ c h = ground (arith, h)

feed₄ : (b c : ℕ) → b < 256 → c < 256 → feed (b / 2) 7 ((b % 2) * 16 + c / 16) ≡ (some b, c / 16, 4)
unfolding feed
feed₄ b c h k = ground (arith, h, k)

feed₅ :
    (b c : ℕ) → b < 256 → c < 256 → feed (b / 16) 4 ((b % 16) * 2 + c / 128) ≡ (some b, c / 128, 1)
unfolding feed
feed₅ b c h k = ground (arith, h, k)

feed₆ : (c : ℕ) → c < 256 → feed (c / 128) 1 ((c / 4) % 32) ≡ (none, c / 4, 6)
unfolding feed
feed₆ c h = ground (arith, h)

feed₇ : (b c : ℕ) → b < 256 → c < 256 → feed (b / 4) 6 ((b % 4) * 8 + c / 32) ≡ (some b, c / 32, 3)
unfolding feed
feed₇ b c h k = ground (arith, h, k)

feed₈ : (b : ℕ) → b < 256 → feed (b / 32) 3 (b % 32) ≡ (some b, 0, 0)
unfolding feed
feed₈ b h = ground (arith, h)

decode_one :
    (acc bits d : ℕ) (s : String) {byte : Option ℕ} {acc' bits' : ℕ}
    → d < 32
    → feed acc bits d ≡ (byte, acc', bits')
    → decode_from acc bits (String.◌∷◌ (letter d) s) ≡ push_byte byte (decode_from acc' bits' s)
decode_one acc bits d s h e =
    decode_letter acc bits d s h
    ∙ ap (λ (f : Option ℕ × ℕ × ℕ). push_byte f.0 (decode_from f.1 f.2 s)) e

module _ (b₁ b₂ b₃ b₄ b₅ : ℕ) (h₁ : b₁ < 256) (h₂ : b₂ < 256) (h₃ : b₃ < 256) (h₄ : b₄ < 256)
    (h₅ : b₅ < 256) where
  pub decode_block :
      (rest : List ℕ)
      → decode_from 0 0 (text_of_digits (digits_of b₁ b₂ b₃ b₄ b₅ rest))
        ≡ prepend b₁ (
            prepend b₂
              (prepend b₃ (prepend b₄ (prepend b₅ (decode_from 0 0 (text_of_digits rest))))))
  unfolding text_of_digits
  decode_block rest =
      let k₁ : b₁ / 8 < 32 = omega (arith, h₁) in
      let k₂ : (b₁ % 8) * 4 + b₂ / 64 < 32 = omega (arith, h₁, h₂) in
      let k₃ : (b₂ / 2) % 32 < 32 = omega arith in
      let k₄ : (b₂ % 2) * 16 + b₃ / 16 < 32 = omega (arith, h₂, h₃) in
      let k₅ : (b₃ % 16) * 2 + b₄ / 128 < 32 = omega (arith, h₃, h₄) in
      let k₆ : (b₄ / 4) % 32 < 32 = omega arith in
      let k₇ : (b₄ % 4) * 8 + b₅ / 32 < 32 = omega (arith, h₄, h₅) in
      let k₈ : b₅ % 32 < 32 = omega arith in
      let e₁ = decode_one 0 0 (b₁ / 8) _ k₁ (feed₁ b₁ h₁) in
      let e₂ = decode_one (b₁ / 8) 5 ((b₁ % 8) * 4 + b₂ / 64) _ k₂ (feed₂ b₁ b₂ h₁ h₂) in
      let e₃ = decode_one (b₂ / 64) 2 ((b₂ / 2) % 32) _ k₃ (feed₃ b₂ h₂) in
      let e₄ = decode_one (b₂ / 2) 7 ((b₂ % 2) * 16 + b₃ / 16) _ k₄ (feed₄ b₂ b₃ h₂ h₃) in
      let e₅ = decode_one (b₃ / 16) 4 ((b₃ % 16) * 2 + b₄ / 128) _ k₅ (feed₅ b₃ b₄ h₃ h₄) in
      let e₆ = decode_one (b₄ / 128) 1 ((b₄ / 4) % 32) _ k₆ (feed₆ b₄ h₄) in
      let e₇ = decode_one (b₄ / 4) 6 ((b₄ % 4) * 8 + b₅ / 32) _ k₇ (feed₇ b₄ b₅ h₄ h₅) in
      let e₈ = decode_one (b₅ / 32) 3 (b₅ % 32) (text_of_digits rest) k₈ (feed₈ b₅ h₅) in
      e₁
      ∙ (e₂
          ∙ ap (prepend b₁)
              (e₃ ∙ (e₄ ∙ ap (prepend b₂) (e₅ ∙ ap (prepend b₃) (e₆ ∙ (e₇ ∙ ap (prepend b₄) e₈))))))
