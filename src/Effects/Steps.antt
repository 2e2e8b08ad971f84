-- ===== src/Effects/Steps.antt =====
-- The steps that several entry points share, each with what it does when it returns.
use orbit_chain_contracts.Common.{ℕ, ◌+◌, ◌≡◌, subst, Option, none, some, arith, unwrap_or}
use orbit_chain_contracts.Types.{Error, MilestoneData}
use orbit_chain_contracts.Host.{State, ok, or_panic}
use orbit_chain_contracts.Storage.{set_milestone, release_lock, storage_increment_release_count}
use orbit_chain_contracts.MilestoneStore.Access.{Writes, set_milestone_lem}

module _ {T : Type 0} where
  pub increment_lem :
      (s : State T) {n : ℕ} {s' : State T}
      → storage_increment_release_count s ≡ ok (n, s')
      → s' ≡ record s {
        release_count = some (unwrap_or s.release_count 0 + 1);
        ttl_calls = s'.ttl_calls;
      }
  unfolding storage_increment_release_count
  increment_lem s h = ground arith

  pub release_lock_lem :
      (s : State T) {s' : State T}
      → release_lock s ≡ ok (tt, s')
      → s' ≡ record s { reentrancy_lock = none; events = s'.events }
  unfolding release_lock
  release_lock_lem s h = ground arith

  pub write_lem :
      (i : ℕ) (d : MilestoneData) (s : State T) {s' : State T}
      → set_milestone i d s ≡ ok (tt, s')
      → Writes i d s s'
  write_lem i d s {s'} h =
      let (t, e, w) = set_milestone_lem i d s in
      let same : t ≡ s' = ground arith in subst (λ (u : State T). Writes i d s u) same w

  pub or_panic-ok :
      {A : Type 0} (o : Option A) (e : Error) (s : State T) {a : A} {s' : State T}
      → or_panic o e s ≡ ok (a, s')
      → (o ≡ some a) × (s' ≡ s)
  or_panic-ok none e s h = absurd (ground arith)
  or_panic-ok (some a) e s h = ground arith
