-- ===== src/Tools/Signing/Decoded.antt =====
-- What a decoded strkey is (crates/tools/src/signing_request.rs): 32 bytes.
use Prim.Native.String.{len}
use orbit_chain_contracts.Common.{
  subst, ℕ, zero, suc, ◌+◌, ◌<◌, ◌≡◌, refl, ap, String, Option, none, some, List, [], ◌∷◌, arith,
  length, ◌==◌, leb, Bool-cases, inl, inr,
}
use orbit_chain_contracts.Tools.Action.{Attempt, ok, err}
use orbit_chain_contracts.Tools.Strkey.{
  StrkeyError, invalid_character, digit_of, feed, push_byte, decode_from, split_at, check_crc,
  check_decoded, strkey_decode,
}
use orbit_chain_contracts.Tools.Strkey.RoundTrip.{AreBytes}

-- The bytes of a result, where there is one.
HasBytes : Attempt StrkeyError (List ℕ) → Type 0
HasBytes (ok bs) = AreBytes bs
HasBytes (err e) = Unit

IsByte : Option ℕ → Type 0
IsByte none = Unit
IsByte (some b) = b < 256

push_byte-HasBytes :
    (o : Option ℕ) (r : Attempt StrkeyError (List ℕ))
    → IsByte o
    → HasBytes r
    → HasBytes (push_byte o r)
unfolding IsByte HasBytes AreBytes
push_byte-HasBytes none r h k = k
push_byte-HasBytes (some b) (ok bs) h k = (h, k)
push_byte-HasBytes (some b) (err e) h k = tt

feed-IsByte : (acc bits v : ℕ) → IsByte ((feed acc bits v).0)
unfolding feed IsByte
feed-IsByte acc bits v = elim (Bool-cases (leb 8 (bits + 5))) [
  | inl e ↦ rw e (omega arith)
  | inr e ↦ rw e tt
]

decode_step :
    (o : Option ℕ) (acc bits : ℕ) (s : String)
    → ((acc' bits' : ℕ) → HasBytes (decode_from acc' bits' s))
    → HasBytes (elim o [
      | none ↦ err invalid_character
      | some v ↦
          let (byte, acc', bits') = feed acc bits v in push_byte byte (decode_from acc' bits' s)
    ])
unfolding HasBytes
decode_step none acc bits s f = tt
decode_step (some v) acc bits s f =
    let fed = feed acc bits v in
    push_byte-HasBytes (fed.0) (decode_from (fed.1) (fed.2) s) (feed-IsByte acc bits v)
      (f (fed.1) (fed.2))

decode_from-HasBytes : (s : String) (acc bits : ℕ) → HasBytes (decode_from acc bits s)
unfolding decode_from HasBytes AreBytes
decode_from-HasBytes String.[] acc bits = tt
decode_from-HasBytes (String.◌∷◌ c s) acc bits =
    decode_step (digit_of c) acc bits s (decode_from-HasBytes s)

split_at-AreBytes :
    (n : ℕ) (xs : List ℕ)
    → AreBytes xs
    → AreBytes ((split_at n xs).0)
      × (length ((split_at n xs).0) + length ((split_at n xs).1) ≡ length xs)
unfolding split_at AreBytes
split_at-AreBytes zero xs h = (tt, omega arith)
split_at-AreBytes (suc n) [] h = (tt, refl)
split_at-AreBytes (suc n) (x ∷ xs) (h, hs) =
    let (a, b) = split_at-AreBytes n xs hs in ((h, a), omega (arith, b))

check_crc-key :
    (a b key : List ℕ)
    → check_crc a b ≡ ok key
    → (version : ℕ) × (a ≡ version ∷ key) × (length b ≡ 2)
unfolding check_crc
check_crc-key (version ∷ rest) (low ∷ high ∷ []) key h =
    let same : rest ≡ key = ground (arith, h) in (version, ap (λ r. version ∷ r) same, refl)
check_crc-key [] b key h = ground (arith, h)
check_crc-key (_ ∷ _) [] key h = ground (arith, h)
check_crc-key (_ ∷ _) (_ ∷ []) key h = ground (arith, h)
check_crc-key (_ ∷ _) (_ ∷ _ ∷ _ ∷ _) key h = ground (arith, h)

check_decoded-ok :
    (decoded key : List ℕ)
    → check_decoded decoded ≡ ok key
    → (length decoded ≡ 35)
      × (check_crc ((split_at 33 decoded).0) ((split_at 33 decoded).1) ≡ ok key)
unfolding check_decoded
check_decoded-ok decoded key h = elim (Bool-cases (length decoded == 35)) [
  | inl e ↦ (ground (arith, e), ground (arith, e, h))
  | inr e ↦ ground (arith, e, h)
]

AreBytes-key : (a key : List ℕ) (version : ℕ) → a ≡ version ∷ key → AreBytes a → AreBytes key
unfolding AreBytes
AreBytes-key a key version e h = let both : AreBytes (version ∷ key) = subst AreBytes e h in both.1

check_decoded-AreBytes :
    (decoded key : List ℕ)
    → AreBytes decoded
    → check_decoded decoded ≡ ok key
    → AreBytes key × (length key ≡ 32)
check_decoded-AreBytes decoded key bytes h =
    let (size, crc) = check_decoded-ok decoded key h in
    let (front, total) = split_at-AreBytes 33 decoded bytes in
    let (version, e, two) =
      check_crc-key ((split_at 33 decoded).0) ((split_at 33 decoded).1) key crc in
    let long = ap length e in
    (
      AreBytes-key ((split_at 33 decoded).0) key version e front,
      omega (arith, size, total, two, long),
    )

checked-AreBytes :
    (r : Attempt StrkeyError (List ℕ)) (key : List ℕ)
    → HasBytes r
    → (elim r [ ok decoded ↦ check_decoded decoded | err e ↦ err e ]) ≡ ok key
    → AreBytes key × (length key ≡ 32)
unfolding HasBytes
checked-AreBytes (ok decoded) key bytes h = check_decoded-AreBytes decoded key bytes h
checked-AreBytes (err e) key bytes h = ground (arith, h)

-- What is decoded is 32 bytes.
pub strkey_decode-AreBytes :
    (s : String) (key : List ℕ) → strkey_decode s ≡ ok key → AreBytes key × (length key ≡ 32)
unfolding strkey_decode
strkey_decode-AreBytes s key h = elim (Bool-cases (len s == 56)) [
  | inl e ↦
      let checked : (elim (decode_from 0 0 s) [
        | ok decoded ↦ check_decoded decoded
        | err e ↦ err e
      ])
          ≡ ok key =
        ground (arith, e, h) in
      checked-AreBytes (decode_from 0 0 s) key (decode_from-HasBytes s 0 0) checked
  | inr e ↦ ground (arith, e, h)
]
