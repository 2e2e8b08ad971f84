-- ===== src/History/Step.antt =====
-- One call of an entry point of campaign/src/lib.rs that returns, and sequences of them. A call that
-- fails changes nothing; each call has its own environment.
use orbit_chain_contracts.Common.{ℕ, ℤ, ◌≡◌, List}
use orbit_chain_contracts.Types.{Address, AssetInfo, Hash, StellarAsset, MilestoneData}
use orbit_chain_contracts.Host.{Env, State, ok}
use orbit_chain_contracts.Contract

pub data Step {T : Type 0} : State T → State T → Type 0 where
  -- a call of a view function: it extends lifetimes at most
  view : {s s' : State T} → s' ≡ record s { ttl_calls = s'.ttl_calls } → Step s s'
  initialize :
      (env : Env T) (creator : Address) (goal : ℤ) (end_time : ℕ) (assets : List StellarAsset)
      (ms : List MilestoneData) (min_donation : ℤ) {s s' : State T}
      → Contract.initialize env creator goal end_time assets ms min_donation s ≡ ok (tt, s')
      → Step s s'
  donate :
      (env : Env T) (donor : Address) (amount : ℤ) (asset : AssetInfo) {s s' : State T}
      → Contract.donate env donor amount asset s ≡ ok (tt, s')
      → Step s s'
  claim_refund :
      (env : Env T) (donor : Address) {s s' : State T}
      → Contract.claim_refund env donor s ≡ ok (tt, s')
      → Step s s'
  end_campaign :
      (env : Env T) {s s' : State T} → Contract.end_campaign env s ≡ ok (tt, s') → Step s s'
  cancel_campaign :
      (env : Env T) {s s' : State T} → Contract.cancel_campaign env s ≡ ok (tt, s') → Step s s'
  extend_deadline :
      (env : Env T) (new_end_time : ℕ) {s s' : State T}
      → Contract.extend_deadline env new_end_time s ≡ ok (tt, s')
      → Step s s'
  release_milestone :
      (env : Env T) (i : ℕ) (recipient : Address) {s s' : State T}
      → Contract.release_milestone env i recipient s ≡ ok (tt, s')
      → Step s s'
  release_milestone_multi_asset :
      (env : Env T) (i : ℕ) (recipient : Address) {s s' : State T}
      → Contract.release_milestone_multi_asset env i recipient s ≡ ok (tt, s')
      → Step s s'
  upgrade :
      (env : Env T) (hash : Hash) {s s' : State T}
      → Contract.upgrade env hash s ≡ ok (tt, s')
      → Step s s'
  freeze : (env : Env T) {s s' : State T} → Contract.freeze env s ≡ ok (tt, s') → Step s s'
  unfreeze : (env : Env T) {s s' : State T} → Contract.unfreeze env s ≡ ok (tt, s') → Step s s'
  block_asset :
      (env : Env T) (asset : Address) {s s' : State T}
      → Contract.block_asset env asset s ≡ ok (tt, s')
      → Step s s'
  unblock_asset :
      (env : Env T) (asset : Address) {s s' : State T}
      → Contract.unblock_asset env asset s ≡ ok (tt, s')
      → Step s s'
  bump_storage : {s s' : State T} → Contract.bump_storage s ≡ ok (tt, s') → Step s s'

-- Any number of calls.
pub data Reach {T : Type 0} (s : State T) : State T → Type 0 where
  here : Reach s s
  next : {t u : State T} → Reach s t → Step t u → Reach s u
