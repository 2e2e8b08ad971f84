-- ===== src/Tools/Strkey/Digits.antt =====
-- Five bytes as eight digits of base32 (crates/tools/src/signing_request.rs).
use orbit_chain_contracts.Common.{ℕ, ◌+◌, ◌*◌, ◌/◌, ◌%◌, ◌<◌, ◌≡◌, refl, List, ◌∷◌, arith}
use orbit_chain_contracts.Tools.Strkey.{emit, digits_from}

abbrev pub shifted : ℕ → ℕ → ℕ
shifted acc b = (acc * 256) % 4294967296 + b

-- The digits that the encoder takes from its accumulator, by the bits that were left before the byte.
digit₁ : (acc b : ℕ) → b < 256 → (shifted acc b / 8) % 32 ≡ b / 8
digit₁ acc b h = omega (arith, h)

digit₂ :
    (acc a b : ℕ) → a < 256 → b < 256 → (shifted (shifted acc a) b / 64) % 32 ≡ (a % 8) * 4 + b / 64
digit₂ acc a b h k = omega (arith, h, k)

digit₃ : (acc b : ℕ) → b < 256 → (shifted acc b / 2) % 32 ≡ (b / 2) % 32
digit₃ acc b h = omega (arith, h)

digit₄ :
    (acc a b : ℕ)
    → a < 256
    → b < 256
    → (shifted (shifted acc a) b / 16) % 32 ≡ (a % 2) * 16 + b / 16
digit₄ acc a b h k = omega (arith, h, k)

digit₅ :
    (acc a b : ℕ)
    → a < 256
    → b < 256
    → (shifted (shifted acc a) b / 128) % 32 ≡ (a % 16) * 2 + b / 128
digit₅ acc a b h k = omega (arith, h, k)

digit₆ : (acc b : ℕ) → b < 256 → (shifted acc b / 4) % 32 ≡ (b / 4) % 32
digit₆ acc b h = omega (arith, h)

digit₇ :
    (acc a b : ℕ) → a < 256 → b < 256 → (shifted (shifted acc a) b / 32) % 32 ≡ (a % 4) * 8 + b / 32
digit₇ acc a b h k = omega (arith, h, k)

digit₈ : (acc b : ℕ) → b < 256 → (shifted acc b / 1) % 32 ≡ b % 32
digit₈ acc b h = omega (arith, h)

-- The eight digits of five bytes.
abbrev pub digits_of : ℕ → ℕ → ℕ → ℕ → ℕ → List ℕ → List ℕ
digits_of b₁ b₂ b₃ b₄ b₅ rest =
    (b₁ / 8)
    ∷ ((b₁ % 8) * 4 + b₂ / 64)
    ∷ ((b₂ / 2) % 32)
    ∷ ((b₂ % 2) * 16 + b₃ / 16)
    ∷ ((b₃ % 16) * 2 + b₄ / 128)
    ∷ ((b₄ / 4) % 32)
    ∷ ((b₄ % 4) * 8 + b₅ / 32)
    ∷ (b₅ % 32)
    ∷ rest

pub block_digits :
    (acc b₁ b₂ b₃ b₄ b₅ : ℕ) (rest : List ℕ)
    → b₁ < 256
    → b₂ < 256
    → b₃ < 256
    → b₄ < 256
    → b₅ < 256
    → digits_from acc 0 (b₁ ∷ b₂ ∷ b₃ ∷ b₄ ∷ b₅ ∷ rest)
      ≡ digits_of b₁ b₂ b₃ b₄ b₅
          (digits_from (shifted (shifted (shifted (shifted (shifted acc b₁) b₂) b₃) b₄) b₅) 0 rest)
unfolding digits_from emit
block_digits acc b₁ b₂ b₃ b₄ b₅ rest h₁ h₂ h₃ h₄ h₅ =
    let a₁ = shifted acc b₁ in
    let a₂ = shifted a₁ b₂ in
    let a₃ = shifted a₂ b₃ in
    let a₄ = shifted a₃ b₄ in
    rw
      (
        digit₁ acc b₁ h₁,
        digit₂ acc b₁ b₂ h₁ h₂,
        digit₃ a₁ b₂ h₂,
        digit₄ a₁ b₂ b₃ h₂ h₃,
        digit₅ a₂ b₃ b₄ h₃ h₄,
        digit₆ a₃ b₄ h₄,
        digit₇ a₃ b₄ b₅ h₄ h₅,
        digit₈ a₄ b₅ h₅,
      )
      refl
