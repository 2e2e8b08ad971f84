-- ===== src/Tools/Strkey/Letters.antt =====
-- The letters of base32 (crates/tools/src/signing_request.rs).
use Prim.Native.String.{char_at}
use Prim.Native.Char.{Char, len_utf8}
use orbit_chain_contracts.Common.{
  ℕ, zero, suc, ◌<◌, ◌≡◌, refl, String, Option, none, some, Bool, true, false, ◌&&◌, ◌==◌,
  Bool-cases, inl, inr, arith,
}
use orbit_chain_contracts.Tools.Strkey.{crockford_alphabet, digit_of, feed, push_byte, decode_from}

-- A test that holds at every number below `n`.
unfoldable pub all_below : (ℕ → Bool) → ℕ → Bool
all_below test zero = true
all_below test (suc n) = test n && all_below test n

pub all_below-test :
    (test : ℕ → Bool) (n : ℕ) → all_below test n ≡ true → (d : ℕ) → d < n → test d ≡ true
unfolding all_below
all_below-test test zero h d k = absurd (omega (arith, k))
all_below-test test (suc n) h d k =
    let at : test n ≡ true = ground (arith, h) in
    let rest : all_below test n ≡ true = ground (arith, h) in
    elim (Bool-cases (d == n)) [
      | inl e ↦ let same : d ≡ n = ground (arith, e) in rw same at
      | inr e ↦ let less : d < n = ground (arith, e, k) in all_below-test test n rest d less
    ]

abbrev pub letter : ℕ → Char
letter d = char_at crockford_alphabet d

abbrev has_value : Option ℕ → ℕ → Bool
has_value none d = false
has_value (some v) d = v == d

abbrev is_letter : ℕ → Bool
is_letter d = has_value (digit_of (letter d)) d && (len_utf8 (letter d) == 1)

letters : all_below is_letter 32 ≡ true
unfolding all_below digit_of
letters = refl

has_value-some : (o : Option ℕ) (d : ℕ) → has_value o d ≡ true → o ≡ some d
has_value-some none d h = ground (arith, h)
has_value-some (some v) d h = ground (arith, h)

-- Each letter is one byte and has its place as its value.
pub letter_lem : (d : ℕ) → d < 32 → (digit_of (letter d) ≡ some d) × (len_utf8 (letter d) ≡ 1)
letter_lem d h =
    let both = all_below-test is_letter 32 letters d h in
    let value : has_value (digit_of (letter d)) d ≡ true = ground (arith, both) in
    (has_value-some (digit_of (letter d)) d value, ground (arith, both))

pub decode_letter :
    (acc bits d : ℕ) (s : String)
    → d < 32
    → decode_from acc bits (String.◌∷◌ (letter d) s)
      ≡ (let (byte, acc', bits') = feed acc bits d in push_byte byte (decode_from acc' bits' s))
unfolding decode_from
decode_letter acc bits d s h = let (e, _) = letter_lem d h in ground (arith, e)
