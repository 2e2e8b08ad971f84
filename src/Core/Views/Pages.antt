-- ===== src/Core/Views/Pages.antt =====
-- The pages of `get_donation_history` of crates/contracts/core/src/lib.rs.
use Prim.Native.Nat.{min}
use native.Mathlib.Decide.{dec_le}
use orbit_chain_contracts.Common.{
  ℕ, zero, suc, ◌+◌, ◌-◌, ◌*◌, ◌≤◌, ◌≡◌, refl, sym, ap, ◌∙◌, some, List, [], ◌∷◌, ◌++◌, arith,
  length, get_elem?, u32_max,
}
use orbit_chain_contracts.Exec.{ok, pure, ◌>>=◌}
use orbit_chain_contracts.Core.Types.{DonationRecord, State}
use orbit_chain_contracts.Core.Contract.{M, history_of}
use orbit_chain_contracts.Core.Views.{wrap_u32, records_from, get_donation_history}

module _ {A : Type 0} where
  -- The elements `i .. i + n` that the list has.
  pub slice : List A → ℕ → ℕ → List A
  slice [] i n = []
  slice (x ∷ xs) zero zero = []
  slice (x ∷ xs) zero (suc n) = x ∷ slice xs zero n
  slice (x ∷ xs) (suc i) n = slice xs i n

  slice_empty : (xs : List A) (i : ℕ) → slice xs i 0 ≡ []
  unfolding slice
  slice_empty [] i = refl
  slice_empty (x ∷ xs) zero = refl
  slice_empty (x ∷ xs) (suc i) = slice_empty xs i

  slice_past : (xs : List A) (i n : ℕ) → length xs ≤ i → slice xs i n ≡ []
  unfolding slice
  slice_past [] i n h = refl
  slice_past (x ∷ xs) zero n h = absurd (omega (arith, h))
  slice_past (x ∷ xs) (suc i) n h = slice_past xs i n (omega (arith, h))

  slice_all : (xs : List A) (n : ℕ) → length xs ≤ n → slice xs 0 n ≡ xs
  unfolding slice
  slice_all [] n h = refl
  slice_all (x ∷ xs) zero h = absurd (omega (arith, h))
  slice_all (x ∷ xs) (suc n) h = ap (λ ys. x ∷ ys) (slice_all xs n (omega (arith, h)))

  slice_join : (xs : List A) (a b : ℕ) → slice xs 0 a ++ slice xs a b ≡ slice xs 0 (a + b)
  unfolding slice
  slice_join [] a b = refl
  slice_join (x ∷ xs) zero b = ap (slice (x ∷ xs) 0) (omega arith)
  slice_join (x ∷ xs) (suc a) b =
      let regroup : suc (a + b) ≡ suc a + b = omega arith in
      ap (λ ys. x ∷ ys) (slice_join xs a b) ∙ ap (slice (x ∷ xs) 0) regroup

  -- The first of the elements `i .. i + n + 1`, and the others.
  slice_step :
      (xs : List A) (i n : ℕ) (x : A)
      → get_elem? xs i ≡ some x
      → slice xs i (suc n) ≡ x ∷ slice xs (suc i) n
  unfolding slice
  slice_step [] i n x h = absurd (ground arith)
  slice_step (y ∷ []) zero n x h = ground arith
  slice_step (y ∷ z ∷ xs) zero n x h = ground arith
  slice_step (y ∷ xs) (suc i) n x h = slice_step xs i n x h

  in_range : (xs : List A) (i : ℕ) → suc i ≤ length xs → (x : A) × (get_elem? xs i ≡ some x)
  in_range [] i h = absurd (omega (arith, h))
  in_range (x ∷ xs) zero h = (x, refl)
  in_range (x ∷ xs) (suc i) h = in_range xs i (omega (arith, h))

  slice_beyond :
      (xs : List A) (i n m : ℕ)
      → length xs ≤ i + n
      → length xs ≤ i + m
      → slice xs i n ≡ slice xs i m
  unfolding slice
  slice_beyond [] i n m h k = refl
  slice_beyond (x ∷ xs) zero zero m h k = absurd (omega (arith, h))
  slice_beyond (x ∷ xs) zero (suc n) zero h k = absurd (omega (arith, k))
  slice_beyond (x ∷ xs) zero (suc n) (suc m) h k =
      ap (λ ys. x ∷ ys) (slice_beyond xs 0 n m (omega (arith, h)) (omega (arith, k)))
  slice_beyond (x ∷ xs) (suc i) n m h k =
      slice_beyond xs i n m (omega (arith, h)) (omega (arith, k))

  -- The end of a page is cut at the end of the list.
  slice-min :
      (xs : List A) (i n : ℕ)
      → i ≤ length xs
      → slice xs i (min (i + n) (length xs) - i) ≡ slice xs i n
  slice-min xs i n h = elim (dec_le (i + n) (length xs)) [
    | yes le ↦ ap (slice xs i) (omega (arith, le))
    | no more ↦ slice_beyond xs i (min (i + n) (length xs) - i) n (omega arith) (omega arith)
  ]

records_from_lem :
    (h : List DonationRecord) (i n : ℕ) (s : State)
    → i + n ≤ length h
    → records_from h i n s ≡ ok (slice h i n, s)
unfolding records_from
records_from_lem h i zero s le = ap (λ xs. ok (xs, s)) (sym (slice_empty h i))
records_from_lem h i (suc n) s le =
    let (x, e) = in_range h i (omega (arith, le)) in
    let rest = records_from_lem h (suc i) n s (omega (arith, le)) in
    let step = slice_step h i n x e in ground arith

-- The page, for a product and a sum that fit in 32 bits.
get_donation_history_lem :
    (id page size : ℕ) (s : State)
    → page * size + size ≤ u32_max
    → get_donation_history id page size s ≡ ok (slice (history_of s id) (page * size) size, s)
unfolding get_donation_history
get_donation_history_lem id page size s fits =
    let h = history_of s id in
    let start = page * size in
    let wrapped : wrap_u32 start ≡ start = omega (arith, fits) in
    let wrapped' : wrap_u32 (start + size) ≡ start + size = omega (arith, fits) in
    elim (dec_le (length h) start) [
      | yes past ↦ let none_left = slice_past h start size past in ground arith
      | no more ↦
          let page_of =
            records_from_lem h start (min (start + size) (length h) - start) s (omega arith) in
          let cut = slice-min h start size (omega arith) in ground arith
    ]

-- What a client does that reads the first `n` pages.
pub read_pages : ℕ → ℕ → ℕ → M (List DonationRecord)
read_pages id size zero = pure []
read_pages id size (suc n) = do
  before ← read_pages id size n
  page ← get_donation_history id n size
  pure (before ++ page)

first_pages :
    (id size n : ℕ) (s : State)
    → n * size ≤ u32_max
    → read_pages id size n s ≡ ok (slice (history_of s id) 0 (n * size), s)
unfolding read_pages
first_pages id size zero s fits =
    let none_yet = slice_empty (history_of s id) 0 in
    let product : 0 * size ≡ 0 = omega arith in rw (product, none_yet) refl
first_pages id size (suc n) s fits =
    let before = first_pages id size n s (grind arith) in
    let page = get_donation_history_lem id n size s (grind arith) in
    let join = slice_join (history_of s id) (n * size) size in
    let sum : n * size + size ≡ suc n * size = grind arith in ground arith

-- The first `n` pages, joined, are the first `n * size` records of the history (all the records where
-- the history has no more), in order, none lost and none twice, if `n * size` fits in 32 bits; reading
-- changes nothing and never traps.
pub read_pages_lem :
    (id size n : ℕ) (s : State)
    → n * size ≤ u32_max
    → (read_pages id size n s ≡ ok (slice (history_of s id) 0 (n * size), s))
      × (length (history_of s id) ≤ n * size → read_pages id size n s ≡ ok (history_of s id, s))
read_pages_lem id size n s fits =
    let prefix = first_pages id size n s fits in
    (prefix, λ all. let whole = slice_all (history_of s id) (n * size) all in ground arith)
