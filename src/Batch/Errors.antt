-- ===== src/Batch/Errors.antt =====
-- When the entry points of crates/contracts/batch-donor fail with a contract error.
use orbit_chain_contracts.Common.{
  ◌<◌, ◌≡◌, refl, ◌↔◌, ◌⊎◌, inl, inr, String, Bool, true, false, Option, List, [], ◌∷◌, arith, any,
  length, Bool-cases, Option-cases,
}
use orbit_chain_contracts.Types.{Address}
use orbit_chain_contracts.Exec.{err}
use orbit_chain_contracts.Batch.Types.{DonateTarget, ValidationError, batch_empty, Val}
use orbit_chain_contracts.Batch.Contract.{
  is_invalid, pre_validate_collect, batch_donate_best_effort, batch_donate_continue_on_error,
  batch_donate_atomic, batch_donate,
}
use orbit_chain_contracts.Batch.Atomic.{
  all_called, is_size, IsSized-of, pre_validate_lem, atomic_from_lem,
}
use orbit_chain_contracts.Batch.BestEffort.{batch_donate_continue_on_error-Processed}

unsized : (ts : List DonateTarget) → (length ts ≡ 0) ⊎ (50 < length ts) → is_size ts ≡ false
unsized [] h = refl
unsized (t ∷ ts) (inl h) = absurd (omega (arith, h))
unsized (t ∷ ts) (inr h) = ground arith

unsized_of : (ts : List DonateTarget) → is_size ts ≡ false → (length ts ≡ 0) ⊎ (50 < length ts)
unsized_of [] h = inl refl
unsized_of (t ∷ ts) h = inr (ground arith)

module _ {W : Type 0} (invoke : Address → String → List Val → W → Option W)
    (authorized : Address → Bool) (operator : Address) (ts : List DonateTarget) (w : W)
    (e : ValidationError) where
  refused : is_size ts ≡ false → pre_validate_collect invoke ts w ≡ err batch_empty
  unfolding pre_validate_collect
  refused h = ground arith

  best_effort_forth :
      batch_donate_continue_on_error invoke authorized operator ts w ≡ err e
      → (authorized operator ≡ true) × (e ≡ batch_empty) × ((length ts ≡ 0) ⊎ (50 < length ts))
  unfolding batch_donate_continue_on_error batch_donate_best_effort
  best_effort_forth h = elim (Bool-cases (authorized operator)) [
    | inr q ↦ absurd (ground arith)
    | inl signed ↦ elim (Bool-cases (is_size ts)) [
      | inl size ↦
          let (rs, v, q, _) =
            batch_donate_continue_on_error-Processed invoke authorized operator ts w signed
              (IsSized-of ts size) in
          absurd (ground arith)
      | inr size ↦ let gate = refused size in (signed, ground arith, unsized_of ts size)
    ]
  ]

  best_effort_back :
      (authorized operator ≡ true) × (e ≡ batch_empty) × ((length ts ≡ 0) ⊎ (50 < length ts))
      → batch_donate_continue_on_error invoke authorized operator ts w ≡ err e
  unfolding batch_donate_continue_on_error batch_donate_best_effort
  best_effort_back (signed, q, size) = let gate = refused (unsized ts size) in ground arith

  abbrev Bad : Type 0
  Bad = (length ts ≡ 0) ⊎ (50 < length ts) ⊎ (any is_invalid ts ≡ true)

  bad_of : is_size ts ≡ false → Bad
  bad_of h = elim (unsized_of ts h) [ inl q ↦ inl q | inr q ↦ inr (inl q) ]

  atomic_forth :
      batch_donate invoke authorized operator ts w ≡ err e
      → (authorized operator ≡ true) × (e ≡ batch_empty) × Bad
  unfolding batch_donate batch_donate_atomic
  atomic_forth h =
      let gate = pre_validate_lem invoke ts w in
      elim (Bool-cases (authorized operator)) [
        | inr q ↦ absurd (ground arith)
        | inl signed ↦ elim (Bool-cases (is_size ts)) [
          | inr size ↦ (signed, ground arith, bad_of size)
          | inl size ↦ elim (Bool-cases (any is_invalid ts)) [
            | inl bad ↦ (signed, ground arith, inr (inr bad))
            | inr good ↦
                let loop =
                  atomic_from_lem invoke 0 ts w
                    (let (_, le) = IsSized-of ts size in omega (arith, le)) in
                elim (Option-cases (all_called invoke ts w)) [
                  | inl f ↦ absurd (ground arith)
                  | inr (v, f) ↦ absurd (ground arith)
                ]
          ]
        ]
      ]

  atomic_back :
      (authorized operator ≡ true) × (e ≡ batch_empty) × Bad
      → batch_donate invoke authorized operator ts w ≡ err e
  unfolding batch_donate batch_donate_atomic
  atomic_back (signed, q, inl size) =
      let gate = pre_validate_lem invoke ts w in let small = unsized ts (inl size) in ground arith
  atomic_back (signed, q, inr (inl size)) =
      let gate = pre_validate_lem invoke ts w in let big = unsized ts (inr size) in ground arith
  atomic_back (signed, q, inr (inr bad)) =
      let gate = pre_validate_lem invoke ts w in
      elim (Bool-cases (is_size ts)) [ inl size ↦ ground arith | inr size ↦ ground arith ]

  -- The two kinds of batch fail with a contract error just if the operator signed and the batch is
  -- empty or has more than 50 targets, or, for the all-or-nothing batch alone, has an amount that is
  -- not positive; and the error is `BatchEmpty` whichever of these it is.
  pub batch_donate-errors :
      ((batch_donate_continue_on_error invoke authorized operator ts w ≡ err e)
        ↔ (authorized operator ≡ true) × (e ≡ batch_empty) × ((length ts ≡ 0) ⊎ (50 < length ts)))
      × ((batch_donate invoke authorized operator ts w ≡ err e)
          ↔ (authorized operator ≡ true)
            × (e ≡ batch_empty)
            × ((length ts ≡ 0) ⊎ (50 < length ts) ⊎ (any is_invalid ts ≡ true)))
  batch_donate-errors = ((best_effort_forth, best_effort_back), (atomic_forth, atomic_back))
