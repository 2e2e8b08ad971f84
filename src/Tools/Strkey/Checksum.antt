-- ===== src/Tools/Strkey/Checksum.antt =====
-- The checksum of a strkey is checked as it is written (crates/tools/src/signing_request.rs).
use orbit_chain_contracts.Common.{
  ℕ, zero, suc, ◌+◌, ◌*◌, ◌/◌, ◌%◌, ◌<◌, ◌≡◌, refl, ap, ◌∙◌, List, [], ◌∷◌, ◌++◌, arith, length,
  length-append, leb, Bool-cases, inl, inr,
}
use orbit_chain_contracts.Tools.Action.{ok}
use orbit_chain_contracts.Tools.Strkey.{
  xor, crc_round, crc_rounds, crc_from, crc16_xmodem, split_at, check_crc, check_decoded,
}

-- 2 ^ n
power : ℕ → ℕ
power zero = 1
power (suc n) = 2 * power n

xor_bound : (n a b : ℕ) → xor n a b < power n
unfolding xor power
xor_bound zero a b = omega arith
xor_bound (suc n) a b =
    let half = xor_bound n (a / 2) (b / 2) in
    let bit : (a % 2 + b % 2) % 2 < 2 = omega arith in omega (arith, half, bit)

xor_16 : (a b : ℕ) → xor 16 a b < 65536
unfolding power
xor_16 a b = xor_bound 16 a b

crc_round_bound : (crc : ℕ) → crc_round crc < 65536
unfolding crc_round
crc_round_bound crc = elim (Bool-cases (leb 32768 crc)) [
  | inl h ↦ let low = xor_16 ((crc * 2) % 65536) 4129 in ground (arith, h, low)
  | inr h ↦ ground (arith, h)
]

crc_rounds_bound : (n crc : ℕ) → crc < 65536 → crc_rounds n crc < 65536
unfolding crc_rounds
crc_rounds_bound zero crc h = h
crc_rounds_bound (suc n) crc h = crc_rounds_bound n (crc_round crc) (crc_round_bound crc)

crc_from_bound : (bs : List ℕ) (crc : ℕ) → crc < 65536 → crc_from crc bs < 65536
unfolding crc_from
crc_from_bound [] crc h = h
crc_from_bound (b ∷ bs) crc h =
    crc_from_bound bs (crc_rounds 8 (xor 16 crc (b * 256)))
      (crc_rounds_bound 8 (xor 16 crc (b * 256)) (xor_16 crc (b * 256)))

crc16_bound : (bs : List ℕ) → crc16_xmodem bs < 65536
unfolding crc16_xmodem
crc16_bound bs = crc_from_bound bs 0 (omega arith)

split_at-append : (xs ys : List ℕ) → split_at (length xs) (xs ++ ys) ≡ (xs, ys)
unfolding split_at
split_at-append [] ys = refl
split_at-append (x ∷ xs) ys = let rest = split_at-append xs ys in ground (arith, rest)

pub check_crc_lem :
    (version : ℕ) (key : List ℕ)
    → check_crc
        (version ∷ key)
        (crc16_xmodem (version ∷ key) % 256 ∷ crc16_xmodem (version ∷ key) / 256 % 256 ∷ [])
      ≡ ok key
unfolding check_crc
check_crc_lem version key =
    let crc = crc16_xmodem (version ∷ key) in
    let bound = crc16_bound (version ∷ key) in
    let same : crc % 256 + 256 * (crc / 256 % 256) ≡ crc = omega (arith, bound) in
    ground (arith, same)

check_decoded-split :
    (decoded a b : List ℕ)
    → length decoded ≡ 35
    → split_at 33 decoded ≡ (a, b)
    → check_decoded decoded ≡ check_crc a b
unfolding check_decoded
check_decoded-split decoded a b h e = ground (arith, h, e)

pub check_decoded_lem :
    (version crc : ℕ) (key : List ℕ)
    → length key ≡ 32
    → check_decoded ((version ∷ key) ++ crc % 256 ∷ (crc / 256 % 256) ∷ [])
      ≡ check_crc (version ∷ key) (crc % 256 ∷ (crc / 256 % 256) ∷ [])
check_decoded_lem version crc key h =
    let tail = crc % 256 ∷ (crc / 256 % 256) ∷ [] in
    let size = length-append (version ∷ key) tail in
    let count : 33 ≡ length (version ∷ key) = omega (arith, h) in
    check_decoded-split ((version ∷ key) ++ tail) (version ∷ key) tail (omega (arith, h, size))
      (ap (λ n. split_at n ((version ∷ key) ++ tail)) count ∙ split_at-append (version ∷ key) tail)
