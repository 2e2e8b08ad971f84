-- ===== src/Batch/BestEffort.antt =====
-- What `batch_donate_continue_on_error` of crates/contracts/batch-donor does, and how it relates to
-- `batch_donate`.
use orbit_chain_contracts.Common.{
  ℕ, suc, ◌+◌, ◌≤◌, ◌≡◌, refl, ap, sym, subst, ◌∙◌, inl, inr, String, pos, ◌≤ℤ◌, ◌<ℤ◌, Bool, true,
  false, Option, none, some, List, [], ◌∷◌, ◌++◌, arith, leb, any, length, u32_max, Bool-cases,
  Option-cases,
}
use orbit_chain_contracts.Types.{Address}
use orbit_chain_contracts.Exec.{Outcome, ok}
use orbit_chain_contracts.Batch.Types.{
  DonateTarget, BatchDonateResult, ValidationError, invalid_amount, Val,
}
use orbit_chain_contracts.Batch.Contract.{
  success_at, invocation_failed_at, validation_failed_at, is_invalid, pre_validate_collect, code_of,
  codes_of, called, attempt, failed_code, try_invoke_campaign_donate, best_effort_from,
  batch_donate_best_effort, batch_donate_continue_on_error, batch_donate,
}
use orbit_chain_contracts.Batch.Atomic.{
  all_called, successes, is_size, IsSized, sized, IsSized-of, batch_donate_iff,
}

module _ {W : Type 0} (invoke : Address → String → List Val → W → Option W) where
  -- The targets from the index `i` on, each with its outcome, from one state to another.
  pub data Processed : ℕ → List DonateTarget → W → List BatchDonateResult → W → Type 0 where
    done : {i : ℕ} {w : W} → Processed i [] w [] w
    rejected :
        {i : ℕ} {t : DonateTarget} {ts : List DonateTarget} {w w' : W} {rs : List BatchDonateResult}
        → t.amount ≤ℤ pos 0
        → Processed (suc i) ts w rs w'
        → Processed i (t ∷ ts) w (validation_failed_at i invalid_amount ∷ rs) w'
    donated :
        {i : ℕ} {t : DonateTarget} {ts : List DonateTarget} {w w₁ w' : W}
        {rs : List BatchDonateResult}
        → pos 0 <ℤ t.amount
        → called invoke t w ≡ some w₁
        → Processed (suc i) ts w₁ rs w'
        → Processed i (t ∷ ts) w (success_at i ∷ rs) w'
    failed :
        {i : ℕ} {t : DonateTarget} {ts : List DonateTarget} {w w' : W} {rs : List BatchDonateResult}
        → pos 0 <ℤ t.amount
        → called invoke t w ≡ none
        → Processed (suc i) ts w rs w'
        → Processed i (t ∷ ts) w (invocation_failed_at i ∷ rs) w'

  -- The code of the target at the index `length before`.
  nth_code :
      (before : List DonateTarget) (t : DonateTarget) (ts : List DonateTarget)
      → failed_code (codes_of (before ++ t ∷ ts)) (length before) ≡ code_of t
  nth_code [] t ts = refl
  nth_code (b ∷ before) t ts = nth_code before t ts

  abbrev Reads :
      ℕ → List DonateTarget → W → Outcome ValidationError (List BatchDonateResult × W) → Type 0
  Reads i ts w (ok (rs, v)) = Processed i ts w rs v
  Reads i ts w _ = Unit

  same_answer :
      {i : ℕ} {ts : List DonateTarget} {w v w' : W} {rs' rs : List BatchDonateResult}
      {o : Outcome ValidationError (List BatchDonateResult × W)}
      → o ≡ ok (rs', v)
      → Processed i ts w rs' v
      → o ≡ ok (rs, w')
      → Processed i ts w rs w'
  same_answer {i = i} {ts = ts} {w = w} q p h = subst (Reads i ts w) (sym q ∙ h) p

  record Answer (i : ℕ) (ts : List DonateTarget) (w : W)
      (o : Outcome ValidationError (List BatchDonateResult × W)) : Type 0 where
    results : List BatchDonateResult
    after : W
    returns : o ≡ ok (results, after)
    processed : Processed i ts w results after

  best_effort_from-Answer :
      (pre : List (Option ℕ)) (i : ℕ) (ts : List DonateTarget) (w : W)
      → ((j : ℕ) → failed_code pre (i + j) ≡ failed_code (codes_of ts) j)
      → i + length ts ≤ u32_max
      → Answer i ts w (best_effort_from invoke pre i ts w)
  unfolding best_effort_from attempt try_invoke_campaign_donate
  best_effort_from-Answer pre i [] w h le = record {
    results = [];
    after = w;
    returns = refl;
    processed = done;
  }
  best_effort_from-Answer pre i (t ∷ ts) w h le =
      let this = h 0 in
      let h' : (j : ℕ) → failed_code pre (suc i + j) ≡ failed_code (codes_of ts) j =
        λ j. ap (failed_code pre) (omega arith) ∙ h (suc j) in
      let zero_more : i + 0 ≡ i = omega arith in
      let fits : leb i u32_max ≡ true = ground (arith, le) in
      elim (Bool-cases (is_invalid t)) [
        | inl bad ↦
            let rest = best_effort_from-Answer pre (suc i) ts w h' (omega (arith, le)) in
            record {
              results = validation_failed_at i invalid_amount ∷ rest.results;
              after = rest.after;
              returns = let q = rest.returns in ground arith;
              processed = rejected (ground arith) rest.processed;
            }
        | inr good ↦ elim (Option-cases (called invoke t w)) [
          | inl e ↦
              let rest = best_effort_from-Answer pre (suc i) ts w h' (omega (arith, le)) in
              record {
                results = invocation_failed_at i ∷ rest.results;
                after = rest.after;
                returns = let q = rest.returns in ground arith;
                processed = failed (ground arith) e rest.processed;
              }
          | inr (w₁, e) ↦
              let rest = best_effort_from-Answer pre (suc i) ts w₁ h' (omega (arith, le)) in
              record {
                results = success_at i ∷ rest.results;
                after = rest.after;
                returns = let q = rest.returns in ground arith;
                processed = donated (ground arith) e rest.processed;
              }
        ]
      ]

  module _ (authorized : Address → Bool) (operator : Address) (ts : List DonateTarget) (w : W) where
    collected : is_size ts ≡ true → pre_validate_collect invoke ts w ≡ ok (codes_of ts, w)
    unfolding pre_validate_collect
    collected h = ground arith

    -- The best-effort batch returns for any operator that signed and any 1 to 50 targets. Its results
    -- have an entry for each target, in order and with its index: a target with an amount that is not
    -- positive is reported as rejected with the code of an invalid amount and its campaign is not
    -- called; any other campaign is called in the state that the successes before it left, and is
    -- reported as a success, with the state that it left, or as a failed invocation, without a change.
    pub batch_donate_continue_on_error-Processed :
        authorized operator ≡ true
        → IsSized ts
        → (rs : List BatchDonateResult) × (w' : W) × (batch_donate_continue_on_error invoke
              authorized operator ts w
            ≡ ok (rs, w'))
          × Processed 0 ts w rs w'
    unfolding batch_donate_continue_on_error batch_donate_best_effort
    batch_donate_continue_on_error-Processed signed size =
        let (_, le) = size in
        let codes = collected (sized ts size) in
        let answer =
          best_effort_from-Answer (codes_of ts) 0 ts w
            (λ j. ap (failed_code (codes_of ts)) (omega arith)) (omega (arith, le)) in
        let q = answer.returns in (answer.results, answer.after, ground arith, answer.processed)

  -- What a best-effort batch that returned has processed.
  pub returned-Processed :
      (authorized : Address → Bool) (operator : Address) (ts : List DonateTarget) (w w' : W)
      (rs : List BatchDonateResult)
      → batch_donate_continue_on_error invoke authorized operator ts w ≡ ok (rs, w')
      → Processed 0 ts w rs w'
  unfolding batch_donate_continue_on_error batch_donate_best_effort pre_validate_collect
  returned-Processed authorized operator ts w w' rs h = elim (Bool-cases (authorized operator)) [
    | inr q ↦ absurd (ground arith)
    | inl signed ↦ elim (Bool-cases (is_size ts)) [
      | inr q ↦ absurd (ground arith)
      | inl size ↦
          let (rs', v, q, p) =
            batch_donate_continue_on_error-Processed authorized operator ts w signed
              (IsSized-of ts size) in
          same_answer q p h
    ]
  ]

  -- A batch without a bad amount whose calls all succeed has only successes.
  all_called-Processed :
      (i : ℕ) (ts : List DonateTarget) (w w' : W) (rs : List BatchDonateResult) {v : W}
      → any is_invalid ts ≡ false
      → all_called invoke ts w ≡ some w'
      → Processed i ts w rs v
      → (rs ≡ successes i ts) × (v ≡ w')
  unfolding all_called successes
  all_called-Processed i [] w w' rs h k done = (refl, ground arith)
  all_called-Processed i (t ∷ ts) w w' rs h k (rejected n p) = absurd (ground arith)
  all_called-Processed i (t ∷ ts) w w' rs h k (donated n e p) =
      let (f, g) = all_called-Processed (suc i) ts _ w' _ (ground arith) (ground arith) p in
      (ap (λ xs. success_at i ∷ xs) f, g)
  all_called-Processed i (t ∷ ts) w w' rs h k (failed n e p) = absurd (ground arith)

  module _ (authorized : Address → Bool) (operator : Address) (ts : List DonateTarget) (w w' : W)
      (rs : List BatchDonateResult) where
    -- Where the all-or-nothing batch succeeds, the best-effort batch returns the same result and
    -- leaves the same state.
    pub batch_donate-agree :
        batch_donate invoke authorized operator ts w ≡ ok (rs, w')
        → batch_donate_continue_on_error invoke authorized operator ts w ≡ ok (rs, w')
    batch_donate-agree h =
        let (signed, size, positive, all, e) =
          (batch_donate_iff invoke authorized operator ts w w' rs).0 h in
        let (rs', v, q, p) =
          batch_donate_continue_on_error-Processed authorized operator ts w signed size in
        let (f, g) = all_called-Processed 0 ts w w' rs' positive all p in ground arith
