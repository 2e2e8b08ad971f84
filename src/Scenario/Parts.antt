-- ===== src/Scenario/Parts.antt =====
-- The theorems on the milestone layer, the arithmetic and the rules of campaign/src at concrete inputs.
use orbit_chain_contracts.Common.{
  ℕ, ◌==◌, ◌+◌, ◌*◌, ◌<◌, ◌≤◌, ℤ, pos, negsuc, ◌≤ℤ◌, ◌≡◌, ◌≢◌, ◌⊎◌, refl, ap, unwrap_or, quot,
  checked_mul, inl, inr, Bool, true, false, Option, none, some, List, [], ◌∷◌, arith, map, ◌↔◌,
}
use orbit_chain_contracts.Types.{
  CampaignData, ended, cancelled, locked, released, can_transition_to, can_transition_milestone_to,
}
use orbit_chain_contracts.Host.{State, ok}
use orbit_chain_contracts.Contract.{new_campaign}
use orbit_chain_contracts.Storage.{
  milestones, milestones_or_legacy, unlock_milestones_batch, set_milestone,
}
use orbit_chain_contracts.Validation.{
  is_ascending, validate_campaign_transition, validate_milestone_transition,
}
use orbit_chain_contracts.Reports.{refund_share, calculate_refund_amount, build_campaign_report}
use orbit_chain_contracts.MilestoneStore.Unlock.{
  unlock_one, newly_unlocked, unlock_milestones_batch_lem,
}
use orbit_chain_contracts.MilestoneStore.Access.{Writes, set_milestone_lem}
use orbit_chain_contracts.Math.RefundShare.{calculate_refund_amount_bounds}
use orbit_chain_contracts.Math.AssetShare.{total_shares, total_shares-le_release}
use orbit_chain_contracts.Rules.Transitions.{validate_transitions_iff}
use orbit_chain_contracts.Effects.Report.{report_value, progress}
use orbit_chain_contracts.Views.{find_next_pending_index}
use orbit_chain_contracts.Effects.Pending.{FirstPending, find_next_pending_index_lem}
use orbit_chain_contracts.Scenario.{Book, now, blank, usdc, two_milestones, milestone}

abbrev opening : CampaignData
opening = new_campaign now 2 (pos 100) 5000 (usdc ∷ []) two_milestones (pos 10)

abbrev with_milestones : State Book
with_milestones = record blank { milestones_vec = some two_milestones }

stored_ascending : is_ascending (milestones with_milestones) ≡ true
unfolding is_ascending milestones_or_legacy
stored_ascending = refl

unlock_milestones_batch_example :
    (s' : State Book) × (unlock_milestones_batch (pos 80) with_milestones
      ≡ ok (newly_unlocked 0 (pos 80) (milestones with_milestones), s'))
    × (milestones s' ≡ map (unlock_one (pos 80)) (milestones with_milestones))
    × (s' ≡ record with_milestones { milestones_vec = s'.milestones_vec; ttl_calls = s'.ttl_calls })
unlock_milestones_batch_example =
    unlock_milestones_batch_lem (pos 80) with_milestones stored_ascending

set_milestone_example :
    (s' : State Book) × (set_milestone 1 (milestone 1 (pos 90)) with_milestones ≡ ok (tt, s'))
    × Writes 1 (milestone 1 (pos 90)) with_milestones s'
set_milestone_example = set_milestone_lem 1 (milestone 1 (pos 90)) with_milestones

abbrev with_entries : State Book
with_entries = record blank {
  milestone_data = (0, milestone 0 (pos 60)) ∷ (1, milestone 1 (pos 100)) ∷ [];
}

refund_30_of_100 : calculate_refund_amount (pos 10) (pos 30) (pos 100) blank ≡ ok (pos 3, blank)
unfolding calculate_refund_amount refund_share quot checked_mul orbit_chain_contracts.Common.◌*ℤ◌
refund_30_of_100 = refl

calculate_refund_amount_bounds_example :
    (k : ℕ) × (pos 3 ≡ pos k)
    × (blank ≡ blank)
    × (k ≤ 10)
    × (10 * 30 < (k + 1) * 100)
    × ((k * 100 ≤ 10 * 30) ⊎ ((k ≡ 1) × (0 < 10 * 30) × (10 * 30 < 100)))
calculate_refund_amount_bounds_example =
    calculate_refund_amount_bounds 10 30 100 blank (omega arith) refund_30_of_100

refund_after_more : calculate_refund_amount (pos 10) (negsuc 4) (pos 100) blank ≡ ok (pos 0, blank)
unfolding calculate_refund_amount refund_share quot checked_mul orbit_chain_contracts.Common.◌*ℤ◌
refund_after_more = refl

total_shares-le_release_example : total_shares 30 100 (7 ∷ 60 ∷ 33 ∷ []) ≤ℤ pos 30
total_shares-le_release_example =
    total_shares-le_release 30 100 (7 ∷ 60 ∷ 33 ∷ []) (omega arith) (omega arith)

build_campaign_report_runs :
    build_campaign_report opening blank ≡ ok (report_value blank opening, blank)
unfolding build_campaign_report report_value progress new_campaign
build_campaign_report_runs = refl

validate_transitions_example :
    ((validate_campaign_transition ended cancelled ≡ none)
      ↔ ((can_transition_to ended cancelled ≡ true) ⊎ ((ended ≡ ended) × (cancelled ≡ cancelled))))
    × ((validate_milestone_transition locked released ≡ none) ↔ (
        (can_transition_milestone_to locked released ≡ true)
        ⊎ ((locked ≡ locked) × (released ≡ released))))
validate_transitions_example = validate_transitions_iff ended cancelled locked released

abbrev watched : State Book
watched = record blank { campaign_data = some opening; milestones_vec = some two_milestones }

find_next_pending_index_example :
    (k : ℕ) × (s' : State Book) × (find_next_pending_index watched ≡ ok (k, s'))
    × FirstPending 0 opening.milestone_count k watched
    × (s' ≡ record watched { ttl_calls = s'.ttl_calls })
find_next_pending_index_example = find_next_pending_index_lem opening watched refl
