-- ===== src/Scenario/Calls.antt =====
-- The theorems on the entry points of campaign/src and on their histories at concrete inputs.
use orbit_chain_contracts.Common.{
  ◌↔◌, ◌*ℤ◌, ℕ, ℤ, pos, ◌≡◌, refl, ap, inl, true, none, some, [], ◌∷◌,
}
use orbit_chain_contracts.Types.{
  DonorRecord, new_for, Hash, Address, AssetInfo, stellar, CampaignData, ended, cancelled,
}
use orbit_chain_contracts.Host.{State, ok}
use orbit_chain_contracts.Contract
use orbit_chain_contracts.Contract.{new_campaign}
use orbit_chain_contracts.Effects.Report.{report_value}
use orbit_chain_contracts.Validation.{validate_campaign_transition}
use orbit_chain_contracts.Contract.{is_refund_eligible}
use orbit_chain_contracts.Effects.Eligible.{MayClaim, is_refund_eligible_iff}
use orbit_chain_contracts.Effects.Returns.{end_campaign_returns}
use orbit_chain_contracts.Effects.Initialize.{Initialized, initialize-Initialized}
use orbit_chain_contracts.Effects.MultiRelease.{
  MultiReleased, release_milestone_multi_asset-MultiReleased,
}
use orbit_chain_contracts.Effects.Lifecycle.{
  Concluded, Extended, end_campaign-Concluded, cancel_campaign-Concluded, extend_deadline-Extended,
}
use orbit_chain_contracts.History.Step.{Step, Reach}
use orbit_chain_contracts.History.Keeps.{Evolves}
use orbit_chain_contracts.History.Promises.{
  ReleaseOf, claim_refund_once, release_once, campaign-Evolves, closed_refuses_donations,
  cached_report_current, lock_given_back,
}
use orbit_chain_contracts.History.Guards.{frozen_refuses}
use orbit_chain_contracts.Scenario.{
  Book, now, env_at, blank, usdc, two_milestones, opened, initialize_runs, donated, donated_runs,
}
use orbit_chain_contracts.Scenario.Runs.{
  cancelled_after, cancelled_after_runs, refunded, refunded_runs, ended_after, ended_after_runs,
  extended, extended_runs, released_in_all, released_in_all_runs, released_by_creator,
  released_by_creator_runs,
}

initialize_example :
    Initialized now 2 (pos 100) 5000 (usdc ∷ []) two_milestones (pos 10) blank opened
initialize_example =
    initialize-Initialized now 2 (pos 100) 5000 (usdc ∷ []) two_milestones (pos 10) blank
      initialize_runs

release_milestone_multi_asset_example : MultiReleased now 0 9 donated released_in_all
release_milestone_multi_asset_example =
    release_milestone_multi_asset-MultiReleased now 0 9 donated released_in_all_runs

end_campaign_example : Concluded now ended donated ended_after
end_campaign_example = end_campaign-Concluded now donated ended_after_runs

cancel_campaign_example : Concluded now cancelled donated cancelled_after
cancel_campaign_example = cancel_campaign-Concluded now donated cancelled_after_runs

extend_deadline_example : Extended now 9000 donated extended
extend_deadline_example = extend_deadline-Extended now 9000 donated extended_runs

claim_refund_once_example : ¬ (Contract.claim_refund (env_at 2000) 7 refunded ≡ ok (tt, blank))
claim_refund_once_example =
    claim_refund_once now (env_at 2000) 7 cancelled_after refunded refunded refunded_runs Reach.here
      blank

release_once_example : ¬ (ReleaseOf (env_at 2000) 0 8 released_by_creator blank)
release_once_example =
    release_once now (env_at 2000) 0 9 8 donated released_by_creator released_by_creator
      (inl released_by_creator_runs) Reach.here blank

abbrev opening : CampaignData
opening = new_campaign now 2 (pos 100) 5000 (usdc ∷ []) two_milestones (pos 10)

opening_stored : opened.campaign_data ≡ some opening
opening_stored = ap (λ (s : State Book). s.campaign_data) initialize_example.state_after

abbrev to_cancelled : Reach opened cancelled_after
to_cancelled =
    Reach.next (Reach.next Reach.here (Step.donate now 7 (pos 80) (stellar 20) donated_runs))
      (Step.cancel_campaign now cancelled_after_runs)

campaign-Evolves_example :
    (later : CampaignData) × (cancelled_after.campaign_data ≡ some later) × Evolves opening later
campaign-Evolves_example =
    campaign-Evolves opening opened cancelled_after opening_stored to_cancelled

cached_report_current_example :
    (c : CampaignData) × (cancelled_after.campaign_data ≡ some c)
    × (cancelled_after.cached_report ≡ some (report_value cancelled_after c))
cached_report_current_example =
    cached_report_current now 2 (pos 100) 5000 (usdc ∷ []) two_milestones (pos 10) blank opened
      cancelled_after initialize_runs to_cancelled

opened_lock : opened.reentrancy_lock ≡ none
opened_lock = ap (λ (s : State Book). s.reentrancy_lock) initialize_example.state_after

lock_given_back_example : cancelled_after.reentrancy_lock ≡ none
lock_given_back_example =
    lock_given_back opening opened cancelled_after opening_stored opened_lock to_cancelled

-- A campaign that is cancelled, stored without milestones.
abbrev closed_campaign : CampaignData
closed_campaign = record opening { status = cancelled }

abbrev closed_state : State Book
closed_state = record blank { campaign_data = some closed_campaign }

closed_refuses_donations_example :
    ¬ (Contract.donate now 7 (pos 80) (stellar 20) closed_state ≡ ok (tt, blank))
closed_refuses_donations_example =
    closed_refuses_donations now 7 (pos 80) (stellar 20) closed_campaign closed_state closed_state
      refl refl Reach.here blank

abbrev halted : State Book
halted = record blank { campaign_data = some opening; frozen = some true }

frozen_refuses_example :
    ((donor : Address) (amount : ℤ) (asset : AssetInfo)
      → ¬ (Contract.donate now donor amount asset halted ≡ ok (tt, blank)))
    × ((donor : Address) → ¬ (Contract.claim_refund now donor halted ≡ ok (tt, blank)))
    × ((i : ℕ) (recipient : Address)
        → ¬ (Contract.release_milestone now i recipient halted ≡ ok (tt, blank)))
    × (¬ (Contract.end_campaign now halted ≡ ok (tt, blank)))
    × (¬ (Contract.cancel_campaign now halted ≡ ok (tt, blank)))
    × ((t : ℕ) → ¬ (Contract.extend_deadline now t halted ≡ ok (tt, blank)))
    × ((hash : Hash) → ¬ (Contract.upgrade now hash halted ≡ ok (tt, blank)))
frozen_refuses_example = frozen_refuses now halted blank refl

abbrev donor_seven : DonorRecord
donor_seven = record (new_for 7 (stellar 20)) { total_donated = pos 80 }

abbrev closed_with_donor : State Book
closed_with_donor = record blank {
  campaign_data = some closed_campaign;
  donor_data = λ d. some donor_seven;
}

is_refund_eligible_example :
    ((s' : State Book) × (is_refund_eligible now 7 closed_with_donor ≡ ok (true, s')))
    ↔ MayClaim now closed_campaign donor_seven closed_with_donor
is_refund_eligible_example =
    is_refund_eligible_iff now 7 closed_campaign donor_seven closed_with_donor refl refl

abbrev running : State Book
running = record blank { campaign_data = some opening }

end_campaign_returns_example : (s' : State Book) × (Contract.end_campaign now running ≡ ok (tt, s'))
unfolding validate_campaign_transition new_campaign ◌*ℤ◌
end_campaign_returns_example = end_campaign_returns now running opening refl refl refl refl refl
