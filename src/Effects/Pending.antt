-- ===== src/Effects/Pending.antt =====
-- `find_next_pending_index` of campaign/src/views.rs against a direct description.
use orbit_chain_contracts.Common.{
  ℕ, zero, suc, ◌+◌, ◌≤◌, ◌≡◌, ◌⊎◌, inl, inr, refl, ap, ◌∙◌, subst, true, false, Option, some, List,
  arith, Bool-cases,
}
use orbit_chain_contracts.Types.{CampaignData, MilestoneData, DataKey}
use orbit_chain_contracts.Host.{State, ok}
use orbit_chain_contracts.Storage.{entry_at, milestone_at, bump_persistent}
use orbit_chain_contracts.Views.{is_pending, find_pending_from, find_next_pending_index}

-- No milestone in `i .. i + n` is stored and unreleased.
abbrev pub NonePending : Option (List MilestoneData) → List (ℕ × MilestoneData) → ℕ → ℕ → Type 0
NonePending v m i zero = Unit
NonePending v m i (suc n) = (is_pending (entry_at v m i) ≡ false) × NonePending v m (suc i) n

module _ {T : Type 0} where
  -- The first of the milestones `i .. i + n` that is pending, or the end.
  pub record FirstPending (i n k : ℕ) (s : State T) : Type 0 where
    pub within : k ≤ n
    pub before : NonePending s.milestones_vec s.milestone_data i k
    pub stops : (k ≡ n) ⊎ (is_pending (milestone_at s (i + k)) ≡ true)

  find_step :
      (i n : ℕ) (s : State T)
      → is_pending (milestone_at s i) ≡ false
      → find_pending_from i (suc n) s
        ≡ find_pending_from (suc i) n (bump_persistent DataKey.milestones_vec s)
  unfolding find_pending_from
  find_step i n s h = ground arith

  find_here :
      (i n : ℕ) (s : State T)
      → is_pending (milestone_at s i) ≡ true
      → find_pending_from i (suc n) s ≡ ok (i, bump_persistent DataKey.milestones_vec s)
  unfolding find_pending_from
  find_here i n s h = ground arith

  shift :
      (i k n : ℕ) (s t : State T)
      → is_pending (milestone_at s i) ≡ false
      → t ≡ record s { ttl_calls = t.ttl_calls }
      → FirstPending (suc i) n k t
      → FirstPending i (suc n) (suc k) s
  shift i k n s t h f x =
      let within = x.within in
      record {
        within = omega arith;
        before = (
          h,
          subst (λ (w : State T). NonePending w.milestones_vec w.milestone_data (suc i) k) f
              x.before,
        );
        stops = moved x.stops;
      }
    where
      moved :
          (k ≡ n) ⊎ (is_pending (milestone_at t (suc i + k)) ≡ true)
          → (suc k ≡ suc n) ⊎ (is_pending (milestone_at s (i + suc k)) ≡ true)
      moved (inl e) = inl (ap suc e)
      moved (inr e) = inr (
          subst (λ (w : State T). is_pending (milestone_at w (i + suc k)) ≡ true) f
            (subst (λ j. is_pending (milestone_at t j) ≡ true) (omega arith) e))

  find_pending_from_lem :
      (i n : ℕ) (s : State T)
      → (k : ℕ) × (s' : State T) × (find_pending_from i n s ≡ ok (i + k, s'))
        × FirstPending i n k s
        × (s' ≡ record s { ttl_calls = s'.ttl_calls })
  unfolding find_pending_from
  find_pending_from_lem i zero s = (
    0,
    s,
    ap (λ j. ok (j, s)) (omega arith),
    record { within = omega arith; before = tt; stops = inl refl },
    refl,
  )
  find_pending_from_lem i (suc n) s = elim (Bool-cases (is_pending (milestone_at s i))) [
    | inl found ↦ (
      0,
      bump_persistent DataKey.milestones_vec s,
      find_here i n s found
          ∙ ap (λ j. ok (j, bump_persistent DataKey.milestones_vec s)) (omega arith),
      record {
        within = omega arith;
        before = tt;
        stops = inr (subst (λ j. is_pending (milestone_at s j) ≡ true) (omega arith) found);
      },
      ground arith,
    )
    | inr other ↦
        let (k, s', e, first, f) =
          find_pending_from_lem (suc i) n (bump_persistent DataKey.milestones_vec s) in
        (
          suc k,
          s',
          find_step i n s other ∙ (e ∙ ap (λ j. ok (j, s')) (omega arith)),
          shift i k n s (bump_persistent DataKey.milestones_vec s) other (ground arith) first,
          ground arith,
        )
  ]

  -- On a stored campaign the search returns, changes entry lifetimes alone, and finds the first
  -- milestone that is stored and not released, or the number of milestones where there is none.
  pub find_next_pending_index_lem :
      (c : CampaignData) (s : State T)
      → s.campaign_data ≡ some c
      → (k : ℕ) × (s' : State T) × (find_next_pending_index s ≡ ok (k, s'))
        × FirstPending 0 c.milestone_count k s
        × (s' ≡ record s { ttl_calls = s'.ttl_calls })
  unfolding find_next_pending_index bump_persistent
  find_next_pending_index_lem c s h =
      let t = bump_persistent DataKey.campaign_data s in
      let (k, s', e, first, f) = find_pending_from_lem 0 c.milestone_count t in
      (
        k,
        s',
        ground arith,
        record { within = first.within; before = first.before; stops = first.stops },
        ground arith,
      )
