-- ===== src/Types/Status.antt =====
-- `CampaignStatus` and `MilestoneStatus` of campaign/src/types.rs.
use orbit_chain_contracts.Common.{Bool, true, false}

pub data CampaignStatus : Type 0 where
  active goal_reached ended cancelled : CampaignStatus

pub data MilestoneStatus : Type 0 where
  locked unlocked released : MilestoneStatus

pub CampaignStatus-discrete : Discrete CampaignStatus
CampaignStatus-discrete = hlevel

pub MilestoneStatus-discrete : Discrete MilestoneStatus
MilestoneStatus-discrete = hlevel

-- `CampaignStatus::is_terminal`
abbrev pub is_terminal : CampaignStatus → Bool
is_terminal ended = true
is_terminal cancelled = true
is_terminal _ = false

abbrev pub accepts_donations : CampaignStatus → Bool
accepts_donations active = true
accepts_donations goal_reached = true
accepts_donations _ = false

abbrev pub allows_refunds : CampaignStatus → Bool
allows_refunds cancelled = true
allows_refunds ended = true
allows_refunds _ = false

-- `CampaignStatus::can_transition_to`
unfoldable pub can_transition_to : CampaignStatus → CampaignStatus → Bool
can_transition_to active goal_reached = true
can_transition_to active ended = true
can_transition_to active cancelled = true
can_transition_to goal_reached ended = true
can_transition_to goal_reached cancelled = true
can_transition_to _ _ = false

-- the comparisons `==` that the code makes
abbrev pub is_active : CampaignStatus → Bool
is_active active = true
is_active _ = false

abbrev pub is_locked : MilestoneStatus → Bool
is_locked locked = true
is_locked _ = false

abbrev pub is_unlocked : MilestoneStatus → Bool
is_unlocked unlocked = true
is_unlocked _ = false

abbrev pub is_released : MilestoneStatus → Bool
is_released released = true
is_released _ = false

-- `MilestoneStatus::is_terminal`
abbrev pub is_terminal_milestone : MilestoneStatus → Bool
is_terminal_milestone released = true
is_terminal_milestone _ = false

-- `MilestoneStatus::can_transition_to`
unfoldable pub can_transition_milestone_to : MilestoneStatus → MilestoneStatus → Bool
can_transition_milestone_to locked unlocked = true
can_transition_milestone_to unlocked released = true
can_transition_milestone_to _ _ = false
