-- ===== src/Scenario/Batch.antt =====
-- Batches of crates/contracts/batch-donor at concrete inputs.
use orbit_chain_contracts.Common.{
  ℕ, ◌<◌, String, ℤ, pos, ◌+ℤ◌, ◌≡◌, refl, ◌↔◌, ◌⊎◌, Bool, true, false, ◌==◌, Option, none, some,
  List, [], ◌∷◌, arith, any, length, if◌then◌else◌,
}
use orbit_chain_contracts.Types.{Address}
use orbit_chain_contracts.Host.{Env}
use orbit_chain_contracts.Exec.{ok, err}
use orbit_chain_contracts.Batch.Types.{
  native, stellar, DonateTarget, BatchDonateResult, batch_empty, Val, address_val, i128_val,
  asset_val,
}
use orbit_chain_contracts.Batch.Contract.{
  success_at, is_invalid, batch_donate, batch_donate_continue_on_error,
}
use orbit_chain_contracts.Batch.Atomic.{all_called, successes, IsSized, batch_donate_iff}
use orbit_chain_contracts.Batch.BestEffort.{
  Processed, batch_donate_continue_on_error-Processed, batch_donate-agree,
}
use orbit_chain_contracts.Batch.Errors.{batch_donate-errors}
use orbit_chain_contracts.Batch.Campaigns.{
  World, invoke_campaign, raised_at, received, batch_donate_continue_on_error-raises,
}
use orbit_chain_contracts.Scenario.{Book, now, donated}

-- Contracts that keep a list of the donations; the one at the address 5 fails.
abbrev keep : ℕ → String → List Val → List (ℕ × List Val) → Option (List (ℕ × List Val))
keep c fn args w = if c == 5 then none else some ((c, args) ∷ w)

abbrev signed_by_one : Address → Bool
signed_by_one a = a == 1

abbrev to : Address → ℤ → DonateTarget
to c amount = record { campaign = c; donor = 7; amount = amount; asset = native }

abbrev good_targets : List DonateTarget
good_targets = to 3 (pos 10) ∷ to 4 (pos 20) ∷ []

abbrev mixed_targets : List DonateTarget
mixed_targets = to 3 (pos 10) ∷ to 5 (pos 20) ∷ to 4 (pos 0) ∷ []

abbrev kept_two : List (ℕ × List Val)
kept_two =
    (4, address_val 7 ∷ i128_val (pos 20) ∷ asset_val native ∷ [])
    ∷ (3, address_val 7 ∷ i128_val (pos 10) ∷ asset_val native ∷ [])
    ∷ []

abbrev two_successes : List BatchDonateResult
two_successes = success_at 0 ∷ success_at 1 ∷ []

batch_donate_example :
    (batch_donate keep signed_by_one 1 good_targets [] ≡ ok (two_successes, kept_two))
    ↔ (signed_by_one 1 ≡ true)
      × IsSized good_targets
      × (any is_invalid good_targets ≡ false)
      × (all_called keep good_targets [] ≡ some kept_two)
      × (two_successes ≡ successes 0 good_targets)
batch_donate_example = batch_donate_iff keep signed_by_one 1 good_targets [] kept_two two_successes

accepted : batch_donate keep signed_by_one 1 good_targets [] ≡ ok (two_successes, kept_two)
unfolding all_called successes
accepted =
    (batch_donate_iff keep signed_by_one 1 good_targets [] kept_two two_successes).1
      (refl, (omega arith, omega arith), refl, refl, refl)

batch_donate_agree_example :
    batch_donate_continue_on_error keep signed_by_one 1 good_targets []
    ≡ ok (two_successes, kept_two)
batch_donate_agree_example =
    batch_donate-agree keep signed_by_one 1 good_targets [] kept_two two_successes accepted

batch_donate_continue_on_error_example :
    (rs : List BatchDonateResult) × (w : List (ℕ × List Val)) × (batch_donate_continue_on_error keep
        signed_by_one 1 mixed_targets []
      ≡ ok (rs, w))
    × Processed keep 0 mixed_targets [] rs w
batch_donate_continue_on_error_example =
    batch_donate_continue_on_error-Processed keep signed_by_one 1 mixed_targets [] refl
      (omega arith, omega arith)

batch_donate_errors_example :
    ((batch_donate_continue_on_error keep signed_by_one 1 mixed_targets [] ≡ err batch_empty)
      ↔ (signed_by_one 1 ≡ true)
        × (batch_empty ≡ batch_empty)
        × ((length mixed_targets ≡ 0) ⊎ (50 < length mixed_targets)))
    × ((batch_donate keep signed_by_one 1 mixed_targets [] ≡ err batch_empty)
        ↔ (signed_by_one 1 ≡ true)
          × (batch_empty ≡ batch_empty)
          × ((length mixed_targets ≡ 0)
              ⊎ (50 < length mixed_targets)
              ⊎ (any is_invalid mixed_targets ≡ true)))
batch_donate_errors_example = batch_donate-errors keep signed_by_one 1 mixed_targets [] batch_empty

-- Two campaigns in the same state; one target is of an asset that the campaign does not accept.
abbrev world : World Book
world = record { campaigns = λ a. donated; tokens = donated.tokens }

abbrev campaign_env : Address → Env Book
campaign_env a = now

abbrev campaign_targets : List DonateTarget
campaign_targets =
    record { campaign = 20; donor = 7; amount = pos 30; asset = stellar 20 }
    ∷ record { campaign = 21; donor = 7; amount = pos 30; asset = native }
    ∷ []

abbrev processed :
    (rs : List BatchDonateResult) × (w : World Book) × (batch_donate_continue_on_error
        (invoke_campaign campaign_env)
        signed_by_one
        1
        campaign_targets
        world
      ≡ ok (rs, w))
    × Processed (invoke_campaign campaign_env) 0 campaign_targets world rs w
processed =
    batch_donate_continue_on_error-Processed (invoke_campaign campaign_env) signed_by_one 1
      campaign_targets world refl (omega arith, omega arith)

batch_donate_raises_example :
    raised_at campaign_env 20 processed.1
    ≡ raised_at campaign_env 20 world +ℤ received campaign_env 20 campaign_targets processed.0
batch_donate_raises_example =
    batch_donate_continue_on_error-raises campaign_env signed_by_one 1 campaign_targets world
      processed.1 processed.0 processed.2 20
