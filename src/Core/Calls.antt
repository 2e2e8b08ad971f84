-- ===== src/Core/Calls.antt =====
-- Sequences of calls of the contract in crates/contracts/core/src/lib.rs. A call that fails leaves
-- the state as it was.
use orbit_chain_contracts.Common.{◌≡◌, refl, ℕ, String, ℤ, none, List, [], ◌∷◌}
use orbit_chain_contracts.Types.{Address}
use orbit_chain_contracts.Exec.{Outcome, ok, err, trap}
use orbit_chain_contracts.Core.Types.{CoreError, Symbol, Env, State}
use orbit_chain_contracts.Core.Contract.{
  initialize, create_campaign, donate, withdraw, approve_withdrawal, submit_transaction,
}

pub data Call : Type 0 where
  initialize_call : Env → Address → Call
  create_call : Env → Address → Symbol → ℤ → ℕ → Call
  donate_call : Env → Address → ℕ → ℤ → Symbol → String → Call
  withdraw_call : Env → Address → ℕ → Address → ℤ → Call
  approve_call : Env → Address → ℕ → Call
  submit_call : Env → Address → ℕ → Call

-- The state after a call that started in `s`.
abbrev pub settle : {A : Type 0} → State → Outcome CoreError (A × State) → State
settle s (ok (_, s')) = s'
settle s (err e) = s
settle s trap = s

-- A call keeps what holds of the state if it does when it succeeds.
pub settle_keeps :
    {A : Type 0} (P : State → Type 0) (s : State) (r : Outcome CoreError (A × State))
    → P s
    → ((v : A) (s' : State) → r ≡ ok (v, s') → P s')
    → P (settle s r)
settle_keeps P s (ok (v, s')) h k = k v s' refl
settle_keeps P s (err e) h k = h
settle_keeps P s trap h k = h

unfoldable pub perform : Call → State → State
perform (initialize_call env admin) s = settle s (initialize env admin s)
perform (create_call env creator title goal deadline) s =
    settle s (create_campaign env creator title goal deadline s)
perform (donate_call env donor id amount asset memo) s =
    settle s (donate env donor id amount asset memo s)
perform (withdraw_call env creator id recipient amount) s =
    settle s (withdraw env creator id recipient amount s)
perform (approve_call env admin id) s = settle s (approve_withdrawal env admin id s)
perform (submit_call env admin id) s = settle s (submit_transaction env admin id s)

-- The calls in order.
unfoldable pub run : List Call → State → State
unfolding perform
run [] s = s
run (c ∷ cs) s = run cs (perform c s)

-- The storage of a contract that was never called.
abbrev pub fresh : State
fresh = record {
  admin = none;
  count = none;
  campaigns = λ id. none;
  pending_withdrawal = λ id. none;
  asset_raised = λ id asset. none;
  history = λ id. none;
  donors = λ id. none;
  donation = λ id donor. none;
  total_tx = none;
  total_donations = none;
  total_withdrawals = none;
  events = [];
}
