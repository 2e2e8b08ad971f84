-- ===== src/Batch/Contract.antt =====
-- crates/contracts/batch-donor/src/batch.rs and the entry points of lib.rs. `W` is the state of the
-- other contracts, and `invoke` calls one of them: it fails, and then the host discards what the call
-- did, or returns the new state.
use orbit_chain_contracts.Common.{
  ℕ, suc, ◌%◌, String, pos, Bool, true, false, Option, none, some, List, [], ◌∷◌, ltb, leb, leb_ℤ,
  length, get_elem?, is_empty, u32_max, if◌then◌else◌,
}
use orbit_chain_contracts.Types.{Address}
use orbit_chain_contracts.Exec.{
  Outcome, ok, trap, pure, panic_if, or_panic, unwrap, demand, ◌>>=◌, ◌>>◌,
}
use orbit_chain_contracts.Exec
use orbit_chain_contracts.Batch.Types.{
  DonateTarget, success, validation_failed, invocation_failed, BatchDonateResult, ValidationError,
  from_code, invalid_amount, empty_batch, batch_too_large, Val, address_val, i128_val, asset_val,
}

abbrev pub max_batch_size : ℕ
max_batch_size = 50

abbrev pub campaign_donate_fn : String
campaign_donate_fn = "donate"

-- The result of a target that was donated to.
abbrev pub success_at : ℕ → BatchDonateResult
success_at i = record { index = i; outcome = success; validation_code = none }

abbrev pub invocation_failed_at : ℕ → BatchDonateResult
invocation_failed_at i = record { index = i; outcome = invocation_failed; validation_code = none }

abbrev pub validation_failed_at : ℕ → ℕ → BatchDonateResult
validation_failed_at i code = record {
  index = i;
  outcome = validation_failed code;
  validation_code = some code;
}

abbrev pub outcome_at : ℕ → Bool → BatchDonateResult
outcome_at i true = success_at i
outcome_at i false = invocation_failed_at i

-- `target.amount <= 0`
abbrev pub is_invalid : DonateTarget → Bool
is_invalid t = leb_ℤ t.amount (pos 0)

abbrev pub code_of : DonateTarget → Option ℕ
code_of t = if is_invalid t then some invalid_amount else none

abbrev pub codes_of : List DonateTarget → List (Option ℕ)
codes_of [] = []
codes_of (t ∷ ts) = code_of t ∷ codes_of ts

-- `if let Some(Some(code)) = pre.get(idx)`
abbrev pub failed_code : List (Option ℕ) → ℕ → Option ℕ
failed_code pre i = elim (get_elem? pre i) [ none ↦ none | some code ↦ code ]

abbrev pub build_donate_args : DonateTarget → List Val
build_donate_args t = address_val t.donor ∷ i128_val t.amount ∷ asset_val t.asset ∷ []

module _ {W : Type 0} (invoke : Address → String → List Val → W → Option W) where
  abbrev M : Type 0 → Type 0
  M A = Exec.M ValidationError W A

  -- The loop of `pre_validate` over the targets.
  unfoldable pub check_amounts : List DonateTarget → M (Unit {0})
  check_amounts [] = pure tt
  check_amounts (t ∷ ts) = do panic_if (is_invalid t) (from_code invalid_amount); check_amounts ts

  unfoldable pub pre_validate : List DonateTarget → M (Unit {0})
  unfolding check_amounts
  pre_validate ts = do
    panic_if (is_empty ts) (from_code empty_batch)
    panic_if (ltb max_batch_size (length ts)) (from_code batch_too_large)
    check_amounts ts

  unfoldable pub pre_validate_collect : List DonateTarget → M (List (Option ℕ))
  pre_validate_collect ts = do
    panic_if (is_empty ts) (from_code empty_batch)
    panic_if (ltb max_batch_size (length ts)) (from_code batch_too_large)
    pure (codes_of ts)

  abbrev pub called : DonateTarget → W → Option W
  called t = invoke t.campaign campaign_donate_fn (build_donate_args t)

  unfoldable pub invoke_campaign_donate : DonateTarget → M (Unit {0})
  invoke_campaign_donate t w = elim (called t w) [ some w' ↦ ok (tt, w') | none ↦ trap ]

  -- Whether the call succeeded.
  unfoldable pub try_invoke_campaign_donate : DonateTarget → M Bool
  try_invoke_campaign_donate t w = elim (called t w) [
    | some w' ↦ ok (true, w')
    | none ↦ ok (false, w)
  ]

  -- The loop over the targets from the index `i` on; `index as u32`.
  unfoldable pub atomic_from : ℕ → List DonateTarget → M (List BatchDonateResult)
  unfolding invoke_campaign_donate
  atomic_from i [] = pure []
  atomic_from i (t ∷ ts) = do
    invoke_campaign_donate t
    rest ← atomic_from (suc i) ts
    pure (success_at (i % suc u32_max) ∷ rest)

  unfoldable pub batch_donate_atomic : List DonateTarget → M (List BatchDonateResult)
  unfolding pre_validate atomic_from
  batch_donate_atomic ts = do pre_validate ts; atomic_from 0 ts

  -- `u32::try_from(i).expect(..)`
  abbrev pub to_u32 : ℕ → M ℕ
  to_u32 i = unwrap (if leb i u32_max then some i else none)

  unfoldable pub attempt : ℕ → Option ℕ → DonateTarget → M BatchDonateResult
  unfolding try_invoke_campaign_donate
  attempt i (some code) t = pure (validation_failed_at i code)
  attempt i none t = do done ← try_invoke_campaign_donate t; pure (outcome_at i done)

  unfoldable pub best_effort_from :
      List (Option ℕ) → ℕ → List DonateTarget → M (List BatchDonateResult)
  unfolding attempt
  best_effort_from pre i [] = pure []
  best_effort_from pre i (t ∷ ts) = do
    idx ← to_u32 i
    r ← attempt idx (failed_code pre idx) t
    rest ← best_effort_from pre (suc i) ts
    pure (r ∷ rest)

  unfoldable pub batch_donate_best_effort : List DonateTarget → M (List BatchDonateResult)
  unfolding pre_validate_collect best_effort_from
  batch_donate_best_effort ts = do pre ← pre_validate_collect ts; best_effort_from pre 0 ts

  -- The entry points; `authorized` says whether the host has an address's signature.
  unfoldable pub batch_donate :
      (Address → Bool) → Address → List DonateTarget → M (List BatchDonateResult)
  unfolding batch_donate_atomic
  batch_donate authorized operator ts = do demand (authorized operator); batch_donate_atomic ts

  unfoldable pub batch_donate_continue_on_error :
      (Address → Bool) → Address → List DonateTarget → M (List BatchDonateResult)
  unfolding batch_donate_best_effort
  batch_donate_continue_on_error authorized operator ts = do
    demand (authorized operator)
    batch_donate_best_effort ts
