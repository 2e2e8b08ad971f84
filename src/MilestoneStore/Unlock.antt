-- ===== src/MilestoneStore/Unlock.antt =====
-- `unlock_milestones_batch` against a description with no early exit.
use orbit_chain_contracts.Common.{
  ℕ, suc, ℤ, ◌≡◌, refl, true, List, [], ◌∷◌, map, some, arith, ltb_ℤ, is_empty, ap, if◌then◌else◌,
  Bool-cases, inl, inr,
}
use orbit_chain_contracts.Types.{MilestoneData, DataKey, is_locked, unlocked}
use orbit_chain_contracts.Host.{State, ok}
use orbit_chain_contracts.Storage.{
  milestones_or_legacy, bump_persistent, milestones, unlock_from, unlock_milestones_batch,
}
use orbit_chain_contracts.Validation.{is_ascending}

-- A locked milestone whose target has been raised is unlocked; any other is left alone.
abbrev pub unlock_one : ℤ → MilestoneData → MilestoneData
unlock_one raised m =
    if ltb_ℤ raised m.target_amount
    then m
    else if is_locked m.status
    then record m { status = unlocked }
    else m

-- The index and target of each milestone that `unlock_one` changes, from the index `i` on.
pub newly_unlocked : ℕ → ℤ → List MilestoneData → List (ℕ × ℤ)
newly_unlocked i raised [] = []
newly_unlocked i raised (m ∷ ms) =
    let rest = newly_unlocked (suc i) raised ms in
    if ltb_ℤ raised m.target_amount
    then rest
    else if is_locked m.status
    then (i, m.target_amount) ∷ rest
    else rest

pub is_ascending-tail :
    (m : MilestoneData) (ms : List MilestoneData)
    → is_ascending (m ∷ ms) ≡ true
    → is_ascending ms ≡ true
unfolding is_ascending
is_ascending-tail m [] h = refl
is_ascending-tail m (n ∷ ms) h = ground arith

-- Past the first target that is not reached, nothing is unlocked.
above_unchanged :
    (i : ℕ) (raised : ℤ) (m : MilestoneData) (ms : List MilestoneData)
    → ltb_ℤ raised m.target_amount ≡ true
    → is_ascending (m ∷ ms) ≡ true
    → (map (unlock_one raised) (m ∷ ms) ≡ m ∷ ms) × (newly_unlocked i raised (m ∷ ms) ≡ [])
unfolding newly_unlocked is_ascending
above_unchanged i raised m [] h a = ground arith
above_unchanged i raised m (n ∷ ms) h a = ground (arith, above_unchanged (suc i) raised n ms)

unlock_from-eq :
    (i : ℕ) (raised : ℤ) (ms : List MilestoneData)
    → is_ascending ms ≡ true
    → unlock_from i raised ms ≡ (map (unlock_one raised) ms, newly_unlocked i raised ms)
unfolding unlock_from newly_unlocked
unlock_from-eq i raised [] a = refl
unlock_from-eq i raised (m ∷ ms) a = elim (Bool-cases (ltb_ℤ raised m.target_amount)) [
  | inl above ↦ ground (arith, above_unchanged i raised m ms above a)
  | inr reached ↦ ground (arith, unlock_from-eq (suc i) raised ms (is_ascending-tail m ms a))
]

-- Where nothing is newly unlocked, the scan changes nothing.
unlock_from-empty :
    (i : ℕ) (raised : ℤ) (ms : List MilestoneData)
    → is_empty (unlock_from i raised ms).1 ≡ true
    → (unlock_from i raised ms).0 ≡ ms
unfolding unlock_from
unlock_from-empty i raised [] h = refl
unlock_from-empty i raised (m ∷ ms) h = ground (arith, unlock_from-empty (suc i) raised ms)

module _ {T : Type 0} (raised : ℤ) (s : State T) where
  -- The action always returns; it changes the stored vector of milestones at most.
  pub unlock_milestones_batch-eq :
      (s' : State T) × (unlock_milestones_batch raised s
        ≡ ok ((unlock_from 0 raised (milestones s)).1, s'))
      × (milestones s' ≡ (unlock_from 0 raised (milestones s)).0)
      × (s' ≡ record s { milestones_vec = s'.milestones_vec; ttl_calls = s'.ttl_calls })
  unfolding unlock_milestones_batch milestones_or_legacy
  unlock_milestones_batch-eq =
      elim (Bool-cases (is_empty (unlock_from 0 raised (milestones s)).1)) [
        | inl same ↦ (
          bump_persistent DataKey.milestones_vec s,
          ground arith,
          ground (arith, unlock_from-empty 0 raised (milestones s) same),
          ground arith,
        )
        | inr changed ↦ (
          bump_persistent DataKey.milestones_vec
              (record (bump_persistent DataKey.milestones_vec s) {
                milestones_vec = some (unlock_from 0 raised (milestones s)).0;
              }),
          ground arith,
          ground arith,
          ground arith,
        )
      ]

  -- What a scan that returned has done.
  pub unlock_milestones_batch_ok :
      {l : List (ℕ × ℤ)} {s' : State T}
      → unlock_milestones_batch raised s ≡ ok (l, s')
      → (milestones s' ≡ (unlock_from 0 raised (milestones s)).0)
        × (s' ≡ record s { milestones_vec = s'.milestones_vec; ttl_calls = s'.ttl_calls })
  unlock_milestones_batch_ok {l} {s'} h =
      let (t, e, ms, frame) = unlock_milestones_batch-eq in
      let same : t ≡ s' = cc (h, e) in (rw (← same) ms, rw (← same) frame)

  -- On milestones with ascending targets the scan with its early exit unlocks exactly the locked
  -- milestones whose target is at most the amount raised, reports each of these with its target,
  -- and touches nothing else in storage.
  pub unlock_milestones_batch_lem :
      is_ascending (milestones s) ≡ true
      → (s' : State T) × (unlock_milestones_batch raised s
          ≡ ok (newly_unlocked 0 raised (milestones s), s'))
        × (milestones s' ≡ map (unlock_one raised) (milestones s))
        × (s' ≡ record s { milestones_vec = s'.milestones_vec; ttl_calls = s'.ttl_calls })
  unlock_milestones_batch_lem a =
      let (s', e, ms, frame) = unlock_milestones_batch-eq in
      let scan = unlock_from-eq 0 raised (milestones s) a in
      (
        s',
        rw (← ap (λ (p : List MilestoneData × List (ℕ × ℤ)). p.1) scan) e,
        rw (← ap (λ (p : List MilestoneData × List (ℕ × ℤ)). p.0) scan) ms,
        frame,
      )
