-- ===== src/MilestoneStore/Access.antt =====
-- `set_milestone` and `get_milestone`: what is written is read back, in both layouts.
use orbit_chain_contracts.Common.{
  ℕ, zero, suc, ◌<◌, ◌≡◌, ◌≢◌, refl, ◌∙◌, true, List, [], ◌∷◌, ◌++◌, length, get_elem?, set, Option,
  some, arith, ltb, ◌==◌, if◌then◌else◌, Bool-cases, inl, inr, get_elem?-set_self, get_elem?-set_ne,
  length-set, length-append, ltb→lt,
}
use orbit_chain_contracts.Types.{MilestoneData, DataKey}
use orbit_chain_contracts.Host.{State, ok}
use orbit_chain_contracts.Storage.{
  milestones_or_legacy, entry_at, lookup, legacy_from, milestones, milestone_at, set_milestone,
  bump_persistent,
}
use orbit_chain_contracts.MilestoneStore.Legacy.{
  legacy_from_complete, legacy_from-cons, legacy_from-suc,
}

get_elem?-append_last :
    (v : List MilestoneData) (d : MilestoneData) → get_elem? (v ++ d ∷ []) (length v) ≡ some d
get_elem?-append_last [] d = refl
get_elem?-append_last (x ∷ v) d = get_elem?-append_last v d

get_elem?-append_below :
    (v : List MilestoneData) (d : MilestoneData) (j : ℕ)
    → j < length v
    → get_elem? (v ++ d ∷ []) j ≡ get_elem? v j
get_elem?-append_below [] d j h = elim h [ ]
get_elem?-append_below (x ∷ v) d zero h = refl
get_elem?-append_below (x ∷ v) d (suc j) h = get_elem?-append_below v d j (omega arith)

-- Reading by the vector first and by the entry of the index otherwise.
abbrev at : List MilestoneData → List (ℕ × MilestoneData) → ℕ → Option MilestoneData
at v m i = if ltb i (length v) then get_elem? v i else lookup m i

at-set :
    (v : List MilestoneData) (m : List (ℕ × MilestoneData)) (i : ℕ) (d : MilestoneData)
    → ltb i (length v) ≡ true
    → (at (set v i d) m i ≡ some d) × ((j : ℕ) → i ≢ j → at (set v i d) m j ≡ at v m j)
at-set v m i d h = (
  ground (arith, length-set v i d, get_elem?-set_self v i d (ltb→lt i (length v) h)),
  λ j ne. ground (arith, length-set v i d, get_elem?-set_ne v {i = i} {j = j} d ne),
)

at-append :
    (v : List MilestoneData) (m : List (ℕ × MilestoneData)) (i : ℕ) (d : MilestoneData)
    → i ≡ length v
    → (at (v ++ d ∷ []) m i ≡ some d) × ((j : ℕ) → i ≢ j → at (v ++ d ∷ []) m j ≡ at v m j)
at-append v m i d h = (
  ground (arith, length-append v (d ∷ []), get_elem?-append_last v d),
  λ j ne. ground (arith, length-append v (d ∷ []), get_elem?-append_below v d j),
)

at-entry :
    (v : List MilestoneData) (m : List (ℕ × MilestoneData)) (i : ℕ) (d : MilestoneData)
    → length v < i
    → (at v ((i, d) ∷ m) i ≡ some d) × ((j : ℕ) → i ≢ j → at v ((i, d) ∷ m) j ≡ at v m j)
at-entry v m i d h = (ground arith, λ j ne. ground arith)

-- An entry past the end of the gathered milestones leaves them as they are.
legacy-entry :
    (i : ℕ) (d : MilestoneData) (m : List (ℕ × MilestoneData))
    → length (legacy_from (suc (length m)) 0 m) < i
    → legacy_from (suc (suc (length m))) 0 ((i, d) ∷ m) ≡ legacy_from (suc (length m)) 0 m
legacy-entry i d m h =
    let more =
      legacy_from-suc (suc (length m)) 0 m
        (legacy_from_complete (suc (length m)) 0 m (omega arith)) in
    legacy_from-cons (suc (suc (length m))) 0 i d m (rw more (omega arith)) ∙ more

module _ {T : Type 0} where
  abbrev with_entry : ℕ → MilestoneData → State T → State T
  with_entry i d s = record s { milestone_data = (i, d) ∷ s.milestone_data }

  milestones-entry :
      (i : ℕ) (d : MilestoneData) (s : State T)
      → length (milestones s) < i
      → milestones (with_entry i d s) ≡ milestones s
  unfolding milestones_or_legacy
  milestones-entry i d s h = ground (arith, legacy-entry i d s.milestone_data)

  -- The states in which the three branches of `set_milestone` end.
  abbrev pub with_vector : List MilestoneData → State T → State T
  with_vector v s =
      bump_persistent DataKey.milestones_vec
        (record (bump_persistent DataKey.milestones_vec s) { milestones_vec = some v })

  abbrev with_legacy : ℕ → MilestoneData → State T → State T
  with_legacy i d s =
      bump_persistent (DataKey.milestone_data i)
        (with_entry i d (bump_persistent DataKey.milestones_vec s))

  set_milestone-in_range :
      (i : ℕ) (d : MilestoneData) (s : State T)
      → ltb i (length (milestones s)) ≡ true
      → set_milestone i d s ≡ ok (tt, with_vector (set (milestones s) i d) s)
  unfolding set_milestone
  set_milestone-in_range i d s h = ground arith

  pub set_milestone-at_end :
      (i : ℕ) (d : MilestoneData) (s : State T)
      → i ≡ length (milestones s)
      → set_milestone i d s ≡ ok (tt, with_vector (milestones s ++ d ∷ []) s)
  unfolding set_milestone
  set_milestone-at_end i d s h = ground arith

  set_milestone-past_end :
      (i : ℕ) (d : MilestoneData) (s : State T)
      → length (milestones s) < i
      → set_milestone i d s ≡ ok (tt, with_legacy i d s)
  unfolding set_milestone
  set_milestone-past_end i d s h = ground arith

  -- What a write at `i` does to reads.
  pub record Writes (i : ℕ) (d : MilestoneData) (s s' : State T) : Type 0 where
    pub at_index : milestone_at s' i ≡ some d
    pub elsewhere : (j : ℕ) → i ≢ j → milestone_at s' j ≡ milestone_at s j
    pub frame : s' ≡ record s {
      milestones_vec = s'.milestones_vec;
      milestone_data = s'.milestone_data;
      ttl_calls = s'.ttl_calls;
    }

  -- A write of a milestone always returns. The milestone is read back at its index, every other
  -- index reads as before, in either layout, and no other entry of storage changes.
  pub set_milestone_lem :
      (i : ℕ) (d : MilestoneData) (s : State T)
      → (s' : State T) × (set_milestone i d s ≡ ok (tt, s')) × Writes i d s s'
  unfolding entry_at milestones_or_legacy bump_persistent
  set_milestone_lem i d s = elim (Bool-cases (ltb i (length (milestones s)))) [
    | inl inside ↦
        let (self, others) = at-set (milestones s) s.milestone_data i d inside in
        (
          with_vector (set (milestones s) i d) s,
          set_milestone-in_range i d s inside,
          record { at_index = self; elsewhere = others; frame = refl },
        )
    | inr outside ↦ elim (Bool-cases (i == length (milestones s))) [
      | inl last ↦
          let (self, others) = at-append (milestones s) s.milestone_data i d (ground arith) in
          (
            with_vector (milestones s ++ d ∷ []) s,
            set_milestone-at_end i d s (ground arith),
            record { at_index = self; elsewhere = others; frame = refl },
          )
      | inr past ↦
          let (self, others) = at-entry (milestones s) s.milestone_data i d (ground arith) in
          (
            with_legacy i d s,
            set_milestone-past_end i d s (ground arith),
            record {
              at_index = rw (milestones-entry i d s (ground arith)) self;
              elsewhere = λ j ne. rw (milestones-entry i d s (ground arith)) (others j ne);
              frame = refl;
            },
          )
    ]
  ]
