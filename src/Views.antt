-- ===== src/Views.antt =====
-- campaign/src/views.rs, get_milestone.rs and get_all_milestones.rs: read-only views.
use orbit_chain_contracts.Common.{
  ℕ, zero, suc, Bool, true, false, not, Option, none, some, List, [], ◌∷◌, leb, ◌==◌,
}
use orbit_chain_contracts.Types.{
  MilestoneData, is_released, pending_release, is_fully_released, MilestoneView, not_initialized,
  milestone_not_found,
}
use orbit_chain_contracts.Host.{M, pure, panic_if, or_panic, ◌>>=◌, ◌>>◌}
use orbit_chain_contracts.Storage.{get_campaign, get_campaign_or_panic, get_milestone}

-- `Some(milestone)` with a status other than `Released`.
abbrev pub is_pending : Option MilestoneData → Bool
is_pending none = false
is_pending (some m) = not (is_released m.status)

unfoldable pub enrich : MilestoneData → Bool → MilestoneView
unfolding pending_release
enrich m next = record {
  milestone = m;
  pending_release = pending_release m;
  is_fully_released = is_fully_released m;
  is_next_pending = next;
}

module _ {T : Type 0} where
  -- The loop over the milestones `i .. i + n`, and `i + n` if it finds none.
  unfoldable pub find_pending_from : ℕ → ℕ → M T ℕ
  unfolding get_milestone
  find_pending_from i zero = pure i
  find_pending_from i (suc n) = do
    found ← get_milestone i
    elim (is_pending found) [ true ↦ pure i | false ↦ find_pending_from (suc i) n ]

  unfoldable pub find_next_pending_index : M T ℕ
  unfolding get_campaign find_pending_from
  find_next_pending_index = do
    found ← get_campaign
    c ← or_panic found not_initialized
    find_pending_from 0 c.milestone_count

  unfoldable pub get_milestone_by_index : ℕ → M T MilestoneView
  unfolding get_campaign get_milestone find_next_pending_index enrich
  get_milestone_by_index i = do
    found ← get_campaign
    c ← or_panic found not_initialized
    panic_if (leb c.milestone_count i) milestone_not_found
    entry ← get_milestone i
    m ← or_panic entry milestone_not_found
    next ← find_next_pending_index
    pure (enrich m (next == i))

  unfoldable pub get_milestone_view : ℕ → M T MilestoneData
  unfolding get_campaign_or_panic get_milestone
  get_milestone_view i = do
    c ← get_campaign_or_panic
    panic_if (leb c.milestone_count i) milestone_not_found
    entry ← get_milestone i
    or_panic entry milestone_not_found

  abbrev pub get_milestone_view_enriched : ℕ → M T MilestoneView
  get_milestone_view_enriched = get_milestone_by_index

  -- The loop over the milestones `i .. i + n`.
  unfoldable pub views_from : ℕ → ℕ → ℕ → M T (List MilestoneView)
  unfolding get_milestone enrich
  views_from next i zero = pure []
  views_from next i (suc n) = do
    entry ← get_milestone i
    m ← or_panic entry milestone_not_found
    rest ← views_from next (suc i) n
    pure (enrich m (next == i) ∷ rest)

  unfoldable pub get_all_milestones_view : M T (List MilestoneView)
  unfolding get_campaign find_next_pending_index views_from
  get_all_milestones_view = do
    found ← get_campaign
    c ← or_panic found not_initialized
    next ← find_next_pending_index
    views_from next 0 c.milestone_count
