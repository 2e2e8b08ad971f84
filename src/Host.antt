-- ===== src/Host.antt =====
-- The host that the campaign contract runs on: the ledger, the contract's storage, the event log
-- and the token contracts. A call either succeeds with a value and a new state, or fails, and then
-- the host discards everything that the call did.
pub mod Inversion
use orbit_chain_contracts.Common.{
  ℕ, ℤ, String, Bool, true, false, Option, none, some, List, [], ◌∷◌, ◌≡◌, refl, if◌then◌else◌,
}
use orbit_chain_contracts.Types.{
  Error, Address, Hash, CampaignData, MilestoneData, DonorRecord, DataKey, CampaignReport,
  CampaignInitializedEvent,
}

-- The events of campaign/src/event.rs and those that the entry points publish themselves.
pub data Event : Type 0 where
  initialized : CampaignInitializedEvent → Event
  campaign_goal_reached : ℤ → Event
  donation_received : Address → Address → ℤ → String → ℤ → ℕ → Event
  milestone_unlocked : Address → ℕ → ℤ → ℤ → Event
  deadline_extended : Address → ℕ → ℕ → Event
  campaign_cancelled : Address → Event
  campaign_ended : Event
  milestone_released : Address → ℕ → ℤ → String → Address → ℕ → Event
  contract_upgraded : Address → Hash → ℕ → Event
  contract_frozen contract_unfrozen : Address → ℕ → Event
  asset_blocked asset_unblocked : Address → Address → ℕ → Event
  asset_refund : Address → Address → ℤ → Event
  refund_claimed : Address → ℤ → Event
  skipped_no_issuer : ℕ → String → Event

-- What a call reads of the host. `T` is the state of all token contracts: `balance` and `transfer`
-- are the calls of the token client, and `transfer` is `none` where the token contract traps.
pub record Env (T : Type 0) : Type 0 where
  pub timestamp : ℕ  -- u64
  pub sequence : ℕ  -- u32
  pub current_contract_address : Address
  pub authorized : Address → Bool
  pub balance : T → Address → Address → ℤ
  pub transfer : T → Address → Address → Address → ℤ → Option T

-- The contract's storage, one field for each `DataKey`, and what a call changes outside it. The
-- host's clock of entry lifetimes is not modelled: `ttl_calls` records each request to extend one.
pub record State (T : Type 0) : Type 0 where
  pub campaign_data : Option CampaignData
  pub milestone_data : List (ℕ × MilestoneData)
  pub donor_data : Address → Option DonorRecord
  pub total_raised : Option ℤ
  pub asset_raised : Address → Option ℤ
  pub donor_asset_donation : Address → Address → Option ℤ
  pub donation_count : Option ℕ
  pub unique_donor_count : Option ℕ
  pub release_count : Option ℕ
  pub contract_status : Option ℕ
  pub reentrancy_lock : Option Bool
  pub frozen : Option Bool
  pub milestones_vec : Option (List MilestoneData)
  pub blocked_asset : Address → Option Bool
  pub cached_report : Option CampaignReport
  pub ttl_calls : List (DataKey × ℕ × ℕ)
  pub events : List Event
  pub tokens : T
  pub wasm_hash : Option Hash

-- A contract error, or a trap of the host (a missing authorization, a token contract that traps).
pub data Failure : Type 0 where
  contract : Error → Failure
  trap : Failure

pub data Result (A : Type 0) : Type 0 where
  ok : A → Result A
  err : Failure → Result A

abbrev pub M : Type 0 → Type 0 → Type 0
M T A = State T → Result (A × State T)

abbrev pub ⊤ : Type 0
⊤ = Unit

module _ {T : Type 0} where
  abbrev pub pure : {A : Type 0} → A → M T A
  pure a s = ok (a, s)

  abbrev pub panic : {A : Type 0} → Error → M T A
  panic e s = err (contract e)

  infixl 5 ◌>>=◌ ◌>>◌
  abbrev pub ◌>>=◌ : {A B : Type 0} → M T A → (A → M T B) → M T B
  ◌>>=◌ m f s = elim (m s) [ ok (a, s') ↦ f a s' | err e ↦ err e ]

  abbrev pub ◌>>◌ : {A B : Type 0} → M T A → M T B → M T B
  m >> k = m >>= λ _. k

  abbrev pub gets : {A : Type 0} → (State T → A) → M T A
  gets f s = ok (f s, s)

  abbrev pub modify : (State T → State T) → M T ⊤
  modify f s = ok (tt, f s)

  -- `if c { panic_with_error(e) }`
  abbrev pub panic_if : Bool → Error → M T ⊤
  panic_if true e s = err (contract e)
  panic_if false e s = ok (tt, s)

  -- `o.unwrap_or_else(|| panic_with_error(e))`
  abbrev pub or_panic : {A : Type 0} → Option A → Error → M T A
  or_panic none e s = err (contract e)
  or_panic (some a) e s = ok (a, s)

  -- `addr.require_auth()`
  abbrev pub demand : Bool → M T ⊤
  demand true s = ok (tt, s)
  demand false s = err trap

  abbrev pub require_auth : Env T → Address → M T ⊤
  require_auth env addr = demand (env.authorized addr)

  -- `env.events().publish`; the newest event stands first.
  abbrev pub publish : Event → M T ⊤
  publish e s = ok (tt, record s { events = e ∷ s.events })

  -- `token_client.transfer`
  abbrev pub transferred : Option T → State T → Result (⊤ × State T)
  transferred none s = err trap
  transferred (some t) s = ok (tt, record s { tokens = t })

  abbrev pub transfer : Env T → Address → Address → Address → ℤ → M T ⊤
  transfer env token from to amount s = transferred (env.transfer s.tokens token from to amount) s
