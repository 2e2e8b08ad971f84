-- ===== src/Storage/Milestones.antt =====
-- The milestones: one vector, with a fallback to the older layout of one entry for each index.
use orbit_chain_contracts.Common.{
  ℕ, zero, suc, ℤ, Option, none, some, List, [], ◌∷◌, ◌++◌, length, get_elem?, set, is_empty, ltb,
  ◌==◌, ltb_ℤ, if◌then◌else◌,
}
use orbit_chain_contracts.Types.{MilestoneData, DataKey, is_locked, unlocked, milestone_not_found}
use orbit_chain_contracts.Host.{State, M, ⊤, ok, pure, or_panic, ◌>>=◌, ◌>>◌}
use orbit_chain_contracts.Storage.Ttl.{lookup, bump_persistent}

-- The loop over the per-index entries, with as many rounds as there are entries and one more: it
-- stops at the first index that has none.
unfoldable pub legacy_from : ℕ → ℕ → List (ℕ × MilestoneData) → List MilestoneData
legacy_from zero i m = []
legacy_from (suc fuel) i m =
    let rest = legacy_from fuel (suc i) m in elim (lookup m i) [ none ↦ [] | some d ↦ d ∷ rest ]

-- What `get_milestones_vec` returns.
unfoldable pub milestones_or_legacy :
    Option (List MilestoneData) → List (ℕ × MilestoneData) → List MilestoneData
unfolding legacy_from
milestones_or_legacy (some v) m = v
milestones_or_legacy none m = legacy_from (suc (length m)) 0 m

-- What `get_milestone` returns: the vector's element, or else the entry of the index.
unfoldable pub entry_at :
    Option (List MilestoneData) → List (ℕ × MilestoneData) → ℕ → Option MilestoneData
unfolding milestones_or_legacy
entry_at v m i =
    let l = milestones_or_legacy v m in if ltb i (length l) then get_elem? l i else lookup m i

-- `unlock_milestones_batch`, from the milestone `i` on: the milestones after the scan, and the
-- index and target of each that it unlocked.
unfoldable pub unlock_from : ℕ → ℤ → List MilestoneData → List MilestoneData × List (ℕ × ℤ)
unlock_from i raised [] = ([], [])
unlock_from i raised (m ∷ ms) =
    let rest = unlock_from (suc i) raised ms in
    if ltb_ℤ raised m.target_amount
    then (m ∷ ms, [])
    else if is_locked m.status
    then (record m { status = unlocked } ∷ rest.0, (i, m.target_amount) ∷ rest.1)
    else (m ∷ rest.0, rest.1)

module _ {T : Type 0} where
  abbrev pub milestones : State T → List MilestoneData
  milestones s = milestones_or_legacy s.milestones_vec s.milestone_data

  -- On a missing vector the bump does nothing.
  unfoldable pub get_milestones_vec : M T (List MilestoneData)
  unfolding bump_persistent
  get_milestones_vec s = ok (milestones s, bump_persistent DataKey.milestones_vec s)

  unfoldable pub set_milestones_vec : List MilestoneData → M T ⊤
  unfolding bump_persistent
  set_milestones_vec v s =
      ok (tt, bump_persistent DataKey.milestones_vec (record s { milestones_vec = some v }))

  set_milestone_entry : ℕ → MilestoneData → M T ⊤
  unfolding bump_persistent
  set_milestone_entry i d s = ok (
    tt,
    bump_persistent (DataKey.milestone_data i)
        (record s { milestone_data = (i, d) ∷ s.milestone_data }),
  )

  unfoldable pub set_milestone : ℕ → MilestoneData → M T ⊤
  unfolding get_milestones_vec set_milestones_vec set_milestone_entry
  set_milestone i d = do
    v ← get_milestones_vec
    if ltb i (length v)
        then set_milestones_vec (set v i d)
        else if i == length v
        then set_milestones_vec (v ++ d ∷ [])
        else set_milestone_entry i d

  abbrev pub milestone_at : State T → ℕ → Option MilestoneData
  milestone_at s i = entry_at s.milestones_vec s.milestone_data i

  unfoldable pub get_milestone : ℕ → M T (Option MilestoneData)
  unfolding bump_persistent
  get_milestone i s = ok (milestone_at s i, bump_persistent DataKey.milestones_vec s)

  unfoldable pub get_milestone_or_panic : ℕ → M T MilestoneData
  unfolding get_milestone
  get_milestone_or_panic i = do m ← get_milestone i; or_panic m milestone_not_found

  unfoldable pub unlock_milestones_batch : ℤ → M T (List (ℕ × ℤ))
  unfolding get_milestones_vec set_milestones_vec
  unlock_milestones_batch raised = do
    v ← get_milestones_vec
    let (v', newly) = unlock_from 0 raised v
    if is_empty newly then pure newly else (do set_milestones_vec v'; pure newly)
