-- ===== src/Scenario/Core.antt =====
-- Calls of the contract in crates/contracts/core/src/lib.rs at concrete inputs.
use orbit_chain_contracts.Common.{
  ℕ, ◌+◌, ◌*◌, ◌≤◌, ℤ, pos, ◌≡◌, refl, Bool, true, not, ◌==◌, Option, none, some, List, [], ◌∷◌,
  arith, length,
}
use orbit_chain_contracts.Exec.{ok}
use orbit_chain_contracts.Core.Types.{Campaign, DonationRecord, Env, State}
use orbit_chain_contracts.Core.Contract.{history_of, create_campaign}
use orbit_chain_contracts.Core.Kept.{create_campaign-run}
use orbit_chain_contracts.Core.Calls.{
  Call, initialize_call, create_call, donate_call, withdraw_call, approve_call, submit_call, run,
  perform, fresh,
}
use orbit_chain_contracts.Core.Book.{book_of, IsLawful}
use orbit_chain_contracts.Core.Refines.{Reads}
use orbit_chain_contracts.Core.Refines.Run.{run-Reads, run-IsLawful}
use orbit_chain_contracts.Core.Views.Pages.{slice, read_pages, read_pages_lem}

-- The administrator is 1, the creator 2, and 7 and 8 donate; 9 never signs.
abbrev core_env : Env
core_env = record { timestamp = 1000; authorized = λ a. not (a == 9) }

abbrev calls : List Call
calls =
    initialize_call core_env 1
    ∷ create_call core_env 2 "well" (pos 10000) 5000
    ∷ donate_call core_env 7 1 (pos 600) "XLM" "first"
    ∷ donate_call core_env 9 1 (pos 600) "XLM" "not signed"
    ∷ donate_call core_env 8 1 (pos 1100) "USDC" ""
    ∷ withdraw_call core_env 2 1 2 (pos 400)
    ∷ withdraw_call core_env 2 1 2 (pos 1)
    ∷ approve_call core_env 1 1
    ∷ approve_call core_env 1 1
    ∷ submit_call core_env 1 1
    ∷ []

run-Reads_example : Reads (run calls fresh) (book_of (run calls fresh).events)
run-Reads_example = run-Reads calls

run-IsLawful_example : IsLawful (run calls fresh).events
run-IsLawful_example = run-IsLawful calls

abbrev created : State
created = perform (create_call core_env 2 "well" (pos 10000) 5000) fresh

creates_well : create_campaign core_env 2 "well" (pos 10000) 5000 fresh ≡ ok (1, created)
unfolding perform create_campaign
creates_well = refl

abbrev later : List Call
later =
    donate_call core_env 7 1 (pos 600) "XLM" "first"
    ∷ initialize_call core_env 9
    ∷ withdraw_call core_env 2 1 2 (pos 400)
    ∷ []

create_campaign-run_example :
    (c : Campaign) × ((run later created).campaigns 1 ≡ some c)
    × (c ≡ record {
      id = 1;
      creator = 2;
      title = "well";
      goal = pos 10000;
      raised = c.raised;
      deadline = 5000;
      active = true;
    })
create_campaign-run_example =
    create_campaign-run core_env 2 "well" (pos 10000) 5000 fresh 1 created later creates_well refl

abbrev given : ℕ → DonationRecord
given n = record { donor = n; amount = pos n; fee = pos 100; asset = "XLM"; timestamp = n }

abbrev three_given : List DonationRecord
three_given = given 1 ∷ given 2 ∷ given 3 ∷ []

abbrev with_history : State
with_history = record fresh { history = λ id. some three_given }

read_pages_example :
    (read_pages 1 2 2 with_history ≡ ok (slice (history_of with_history 1) 0 (2 * 2), with_history))
    × (length (history_of with_history 1) ≤ 2 * 2
        → read_pages 1 2 2 with_history ≡ ok (history_of with_history 1, with_history))
read_pages_example = read_pages_lem 1 2 2 with_history (omega arith)

abbrev raised_in : State → ℕ → Option ℤ
raised_in s id = elim (s.campaigns id) [ none ↦ none | some c ↦ some c.raised ]

-- 500 and 1000 are given, and 400 are withdrawn.
ends : raised_in (run calls fresh) 1 ≡ some (pos 1100)
unfolding run orbit_chain_contracts.Core.Contract.submit_transaction
    orbit_chain_contracts.Core.Contract.approve_withdrawal
    orbit_chain_contracts.Core.Contract.withdraw orbit_chain_contracts.Core.Contract.donate
    orbit_chain_contracts.Core.Contract.donate_checks
    orbit_chain_contracts.Core.Contract.create_campaign
    orbit_chain_contracts.Core.Contract.initialize orbit_chain_contracts.Core.Contract.donate_totals
    orbit_chain_contracts.Core.Contract.donate_record orbit_chain_contracts.Core.Contract.add_donor
    orbit_chain_contracts.Core.Contract.count_donation orbit_chain_contracts.Common.◌+ℤ◌
    orbit_chain_contracts.Common.◌-ℤ◌
ends = refl

six_events : length (run calls fresh).events ≡ 6
unfolding run orbit_chain_contracts.Core.Contract.submit_transaction
    orbit_chain_contracts.Core.Contract.approve_withdrawal
    orbit_chain_contracts.Core.Contract.withdraw orbit_chain_contracts.Core.Contract.donate
    orbit_chain_contracts.Core.Contract.donate_checks
    orbit_chain_contracts.Core.Contract.create_campaign
    orbit_chain_contracts.Core.Contract.initialize orbit_chain_contracts.Core.Contract.donate_totals
    orbit_chain_contracts.Core.Contract.donate_record orbit_chain_contracts.Core.Contract.add_donor
    orbit_chain_contracts.Core.Contract.count_donation orbit_chain_contracts.Common.◌+ℤ◌
    orbit_chain_contracts.Common.◌-ℤ◌
six_events = refl
