-- ===== src/Rules/Transitions.antt =====
-- How the two statements of the status rules compare: the methods of campaign/src/types.rs and the
-- functions of campaign/src/validation.rs.
use orbit_chain_contracts.Common.{◌≡◌, ◌↔◌, ◌⊎◌, true, none, arith}
use orbit_chain_contracts.Types.{
  CampaignStatus, ended, cancelled, MilestoneStatus, locked, released, can_transition_to,
  can_transition_milestone_to,
}
use orbit_chain_contracts.Validation.{validate_campaign_transition, validate_milestone_transition}

campaign_iff :
    (a b : CampaignStatus)
    → (validate_campaign_transition a b ≡ none)
      ↔ ((can_transition_to a b ≡ true) ⊎ ((a ≡ ended) × (b ≡ cancelled)))
unfolding validate_campaign_transition can_transition_to
campaign_iff a b = grind arith

milestone_iff :
    (a b : MilestoneStatus)
    → (validate_milestone_transition a b ≡ none)
      ↔ ((can_transition_milestone_to a b ≡ true) ⊎ ((a ≡ locked) × (b ≡ released)))
unfolding validate_milestone_transition can_transition_milestone_to
milestone_iff a b = grind arith

-- The validator of campaign statuses allows exactly what `can_transition_to` allows, and `Ended` to
-- `Cancelled` too; that of milestone statuses exactly what the method of milestone statuses allows, and
-- `Locked` to `Released` too.
pub validate_transitions_iff :
    (a b : CampaignStatus) (m n : MilestoneStatus)
    → ((validate_campaign_transition a b ≡ none)
        ↔ ((can_transition_to a b ≡ true) ⊎ ((a ≡ ended) × (b ≡ cancelled))))
      × ((validate_milestone_transition m n ≡ none)
          ↔ ((can_transition_milestone_to m n ≡ true) ⊎ ((m ≡ locked) × (n ≡ released))))
validate_transitions_iff a b m n = (campaign_iff a b, milestone_iff m n)
