-- ===== src/Batch/Atomic.antt =====
-- What `batch_donate` of crates/contracts/batch-donor does to the campaigns, and when it fails.
use orbit_chain_contracts.Common.{
  ℕ, suc, ◌+◌, ◌%◌, ◌≤◌, ◌<◌, ◌≡◌, refl, ◌↔◌, inl, inr, String, Bool, true, false, Option, none,
  some, List, [], ◌∷◌, arith, ltb, any, length, is_empty, u32_max, if◌then◌else◌, Bool-cases,
  Option-cases,
}
use orbit_chain_contracts.Types.{Address}
use orbit_chain_contracts.Exec.{Outcome, ok, err, trap}
use orbit_chain_contracts.Batch.Types.{
  DonateTarget, BatchDonateResult, ValidationError, batch_empty, Val,
}
use orbit_chain_contracts.Batch.Contract.{
  success_at, is_invalid, check_amounts, pre_validate, called, invoke_campaign_donate, atomic_from,
  batch_donate_atomic, batch_donate,
}

-- One success for each target, with its index.
unfoldable pub successes : ℕ → List DonateTarget → List BatchDonateResult
successes i [] = []
successes i (t ∷ ts) = success_at i ∷ successes (suc i) ts

-- The tests of both modes on the number of targets.
abbrev pub is_size : List DonateTarget → Bool
is_size ts = if is_empty ts then false else if ltb 50 (length ts) then false else true

-- 1 to 50 targets.
abbrev pub IsSized : List DonateTarget → Type 0
IsSized ts = (0 < length ts) × (length ts ≤ 50)

pub sized : (ts : List DonateTarget) → IsSized ts → is_size ts ≡ true
sized [] (h, _) = absurd (omega (arith, h))
sized (t ∷ ts) (_, h) = ground arith

pub IsSized-of : (ts : List DonateTarget) → is_size ts ≡ true → IsSized ts
IsSized-of [] h = absurd (ground arith)
IsSized-of (t ∷ ts) h = (omega arith, ground arith)

module _ {W : Type 0} (invoke : Address → String → List Val → W → Option W) where
  -- The donations in order, each one in the state that the one before it left.
  unfoldable pub all_called : List DonateTarget → W → Option W
  all_called [] w = some w
  all_called (t ∷ ts) w = elim (called invoke t w) [ some w' ↦ all_called ts w' | none ↦ none ]

  check_amounts_lem :
      (ts : List DonateTarget) (w : W)
      → check_amounts invoke ts w ≡ (if any is_invalid ts then err batch_empty else ok (tt, w))
  unfolding check_amounts
  check_amounts_lem [] w = refl
  check_amounts_lem (t ∷ ts) w = let rest = check_amounts_lem ts w in ground arith

  pub pre_validate_lem :
      (ts : List DonateTarget) (w : W)
      → pre_validate invoke ts w ≡ (
          if is_size ts
          then (if any is_invalid ts then err batch_empty else ok (tt, w))
          else err batch_empty)
  unfolding pre_validate
  pre_validate_lem ts w = let amounts = check_amounts_lem ts w in ground arith

  abbrev atomic_result :
      ℕ → List DonateTarget → Option W → Outcome ValidationError (List BatchDonateResult × W)
  atomic_result i ts none = trap
  atomic_result i ts (some w) = ok (successes i ts, w)

  pub atomic_from_lem :
      (i : ℕ) (ts : List DonateTarget) (w : W)
      → i + length ts ≤ u32_max
      → atomic_from invoke i ts w ≡ atomic_result i ts (all_called ts w)
  unfolding atomic_from invoke_campaign_donate all_called successes
  atomic_from_lem i [] w h = refl
  atomic_from_lem i (t ∷ ts) w h = elim (Option-cases (called invoke t w)) [
    | inl e ↦ ground arith
    | inr (w', e) ↦
        let rest = atomic_from_lem (suc i) ts w' (omega (arith, h)) in
        let same : i % suc u32_max ≡ i = omega (arith, h) in
        elim (Option-cases (all_called ts w')) [
          | inl f ↦ ground arith
          | inr (w'', f) ↦ ground arith
        ]
  ]

  module _ (authorized : Address → Bool) (operator : Address) (ts : List DonateTarget) (w w' : W)
      (rs : List BatchDonateResult) where
    abbrev Accepted : Type 0
    Accepted =
        (authorized operator ≡ true)
        × IsSized ts
        × (any is_invalid ts ≡ false)
        × (all_called ts w ≡ some w')
        × (rs ≡ successes 0 ts)

    forth : batch_donate invoke authorized operator ts w ≡ ok (rs, w') → Accepted
    unfolding batch_donate batch_donate_atomic
    forth h =
        let gate = pre_validate_lem ts w in
        elim (Bool-cases (is_size ts)) [
          | inl size ↦
              let loop =
                atomic_from_lem 0 ts w (let (_, le) = IsSized-of ts size in omega (arith, le)) in
              elim (Option-cases (all_called ts w)) [
                | inl e ↦ absurd (ground arith)
                | inr (v, e) ↦
                    (ground arith, IsSized-of ts size, ground arith, ground arith, ground arith)
              ]
          | inr f ↦ absurd (ground arith)
        ]

    back : Accepted → batch_donate invoke authorized operator ts w ≡ ok (rs, w')
    unfolding batch_donate batch_donate_atomic
    back (signed, size, positive, all, e) =
        let gate = pre_validate_lem ts w in
        let big = sized ts size in
        let loop = atomic_from_lem 0 ts w (let (_, le) = size in omega (arith, le)) in ground arith

    -- The all-or-nothing batch succeeds just if the operator signed, there are 1 to 50 targets, each
    -- amount is positive, and each campaign's `donate`, called in order in the state that the one
    -- before it left, succeeds; then the state is that of the last call, and the result reports one
    -- success for each target, with the indices 0, 1, 2, ….
    pub batch_donate_iff :
        (batch_donate invoke authorized operator ts w ≡ ok (rs, w'))
        ↔ (authorized operator ≡ true)
          × IsSized ts
          × (any is_invalid ts ≡ false)
          × (all_called ts w ≡ some w')
          × (rs ≡ successes 0 ts)
    batch_donate_iff = (forth, back)
