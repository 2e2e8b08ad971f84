-- ===== src/Storage/Ttl.antt =====
-- The lifetimes of storage entries: constants, `bump_persistent` and `bump_all_persistent`.
use orbit_chain_contracts.Common.{
  ℕ, zero, suc, Bool, List, [], ◌∷◌, is_some, ◌==◌, if◌then◌else◌, Option, none, some, ◌≡◌, arith,
}
use orbit_chain_contracts.Types.{
  DataKey, MilestoneData, campaign_data, total_raised, donation_count, unique_donor_count,
  release_count, contract_status, reentrancy_lock, frozen, milestones_vec, cached_report,
  milestone_data, donor_data, asset_raised, blocked_asset, donor_asset_donation,
}
use orbit_chain_contracts.Host.{State, ok, M, ⊤, modify}

abbrev pub persistent_bump_threshold : ℕ
persistent_bump_threshold = 518400

abbrev pub persistent_bump_amount : ℕ
persistent_bump_amount = 1036800

abbrev pub temporary_ttl : ℕ
temporary_ttl = 120960

abbrev pub temporary_bump_threshold : ℕ
temporary_bump_threshold = 17280

-- The entry that an index has in the layout of one entry for each milestone.
abbrev pub lookup : List (ℕ × MilestoneData) → ℕ → Option MilestoneData
lookup [] i = none
lookup ((j, d) ∷ m) i = if j == i then some d else lookup m i

-- `env.storage().persistent().has(key)`; the status flag and the lock stand in temporary storage.
unfoldable pub persistent_has : {T : Type 0} → DataKey → State T → Bool
persistent_has campaign_data s = is_some s.campaign_data
persistent_has total_raised s = is_some s.total_raised
persistent_has donation_count s = is_some s.donation_count
persistent_has unique_donor_count s = is_some s.unique_donor_count
persistent_has release_count s = is_some s.release_count
persistent_has contract_status s = Bool.false
persistent_has reentrancy_lock s = Bool.false
persistent_has frozen s = is_some s.frozen
persistent_has milestones_vec s = is_some s.milestones_vec
persistent_has cached_report s = is_some s.cached_report
persistent_has (milestone_data i) s = is_some (lookup s.milestone_data i)
persistent_has (donor_data a) s = is_some (s.donor_data a)
persistent_has (asset_raised a) s = is_some (s.asset_raised a)
persistent_has (blocked_asset a) s = is_some (s.blocked_asset a)
persistent_has (donor_asset_donation a b) s = is_some (s.donor_asset_donation a b)

unfoldable pub bump_persistent : {T : Type 0} → DataKey → State T → State T
unfolding persistent_has
bump_persistent key s = record s {
  ttl_calls =
      if persistent_has key s
      then (key, persistent_bump_threshold, persistent_bump_amount) ∷ s.ttl_calls
      else s.ttl_calls;
}

bump_each : {T : Type 0} → List DataKey → State T → State T
unfolding bump_persistent
bump_each [] s = s
bump_each (k ∷ ks) s = bump_each ks (bump_persistent k s)

-- The keys of the milestones `i .. i + n`.
milestone_keys : ℕ → ℕ → List DataKey
milestone_keys i zero = []
milestone_keys i (suc n) = milestone_data i ∷ milestone_keys (suc i) n

-- The code tests `has` before each bump, and the bump tests it again.
unfoldable pub bump_all_persistent : {T : Type 0} → ℕ → M T ⊤
unfolding bump_each milestone_keys
bump_all_persistent milestone_count = modify (
    bump_each (
      campaign_data
      ∷ total_raised
      ∷ donation_count
      ∷ unique_donor_count
      ∷ release_count
      ∷ milestones_vec
      ∷ cached_report
      ∷ milestone_keys 0 milestone_count))

bump_each-ttl_only :
    {T : Type 0} (ks : List DataKey) (s : State T)
    → bump_each ks s ≡ record s { ttl_calls = (bump_each ks s).ttl_calls }
unfolding bump_each
bump_each-ttl_only [] s = ground arith
bump_each-ttl_only (k ∷ ks) s =
    let rest = bump_each-ttl_only ks (bump_persistent k s) in ground arith

pub bump_all_persistent_lem :
    {T : Type 0} (n : ℕ) (s : State T) {s' : State T}
    → bump_all_persistent n s ≡ ok (tt, s')
    → s' ≡ record s { ttl_calls = s'.ttl_calls }
unfolding bump_all_persistent
bump_all_persistent_lem n s h =
    let same =
      bump_each-ttl_only
        (campaign_data
          ∷ total_raised
          ∷ donation_count
          ∷ unique_donor_count
          ∷ release_count
          ∷ milestones_vec
          ∷ cached_report
          ∷ milestone_keys 0 n)
        s in
    ground arith
