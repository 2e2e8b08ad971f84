-- ===== src/Core/Contract.antt =====
-- The entry points of crates/contracts/core/src/lib.rs that change state.
use orbit_chain_contracts.Common.{
  ℕ, String, ℤ, pos, Bool, true, false, not, ◌&&◌, Option, none, some, List, [], ◌∷◌, ◌++◌, ◌==◌,
  any, unwrap_or, update, update₂, leb_ℤ, ltb_ℤ, ◌+ℤ◌, ◌-ℤ◌, wrap_i128, wrapping_add_u64, str_eq,
  if◌then◌else◌,
}
use orbit_chain_contracts.Types.{Address}
use orbit_chain_contracts.Exec.{
  Outcome, ok, pure, gets, modify, panic_if, or_panic, demand, ◌>>=◌, ◌>>◌,
}
use orbit_chain_contracts.Exec
use orbit_chain_contracts.Core.Types.{
  CoreError, campaign_not_found, campaign_not_active, insufficient_amount, insufficient_funds,
  unauthorized, asset_not_specified, not_initialized, no_pending_withdrawal,
  withdrawal_already_pending, withdrawal_not_pending, withdrawal_not_approved,
  invalid_withdrawal_amount, Symbol, base_fee, WithdrawalStatus, pending, approved, submitted,
  WithdrawalRequest, Campaign, DonationRecord, CoreEvent, Env, State,
}

abbrev pub M : Type 0 → Type 0
M A = Exec.M CoreError State A

abbrev pub ⊤ : Type 0
⊤ = Unit

abbrev pub publish : CoreEvent → M ⊤
publish e = modify (λ s. record s { events = e ∷ s.events })

abbrev pub is_pending : WithdrawalStatus → Bool
is_pending pending = true
is_pending _ = false

abbrev pub is_approved : WithdrawalStatus → Bool
is_approved approved = true
is_approved _ = false

abbrev pub is_submitted : WithdrawalStatus → Bool
is_submitted submitted = true
is_submitted _ = false

-- It can be called again: nothing tests whether an administrator is set.
unfoldable pub initialize : Env → Address → M ⊤
initialize env admin = do
  demand (env.authorized admin)
  modify (λ s. record s { admin = some admin; count = some 0 })

unfoldable pub create_campaign : Env → Address → Symbol → ℤ → ℕ → M ℕ
create_campaign env creator title goal deadline = do
  demand (env.authorized creator)
  stored ← gets (λ s. s.count)
  let count = wrapping_add_u64 (unwrap_or stored 0) 1
  modify (λ s. record s {
    campaigns = update s.campaigns count (
        some (record {
          id = count;
          creator = creator;
          title = title;
          goal = goal;
          raised = pos 0;
          deadline = deadline;
          active = true;
        }));
    count = some count;
  })
  publish (CoreEvent.campaign_created creator count)
  pure count

-- A write under the key of a campaign and an asset.
abbrev pub update_asset : {V : Type 0} → (ℕ → Symbol → V) → ℕ → Symbol → V → ℕ → Symbol → V
update_asset f id asset v j b = if (id == j) && str_eq asset b then v else f j b

-- `amount - fee`, `+=` and `+` wrap in the release profile.
abbrev pub net_of : ℤ → ℤ
net_of amount = wrap_i128 (amount -ℤ base_fee)

abbrev pub history_of : State → ℕ → List DonationRecord
history_of s id = unwrap_or (s.history id) []

abbrev pub donors_of : State → ℕ → List Address
donors_of s id = unwrap_or (s.donors id) []

abbrev pub donation_record : Env → Address → ℤ → Symbol → DonationRecord
donation_record env donor amount asset = record {
  donor = donor;
  amount = net_of amount;
  fee = base_fee;
  asset = asset;
  timestamp = env.timestamp;
}

-- The tests of a donation; the result is the campaign.
unfoldable pub donate_checks : Env → Address → ℕ → ℤ → Symbol → M Campaign
donate_checks env donor id amount asset = do
  demand (env.authorized donor)
  panic_if (str_eq asset "") asset_not_specified
  panic_if (leb_ℤ amount base_fee) insufficient_amount
  found ← gets (λ s. s.campaigns id)
  c ← or_panic found campaign_not_found
  panic_if (not c.active) campaign_not_active
  pure c

-- The overall and the per-asset total.
unfoldable pub donate_totals : ℕ → ℤ → Symbol → Campaign → M ⊤
unfolding wrap_i128
donate_totals id amount asset c = do
  modify (λ s. record s {
    campaigns =
        update s.campaigns id (some (record c { raised = wrap_i128 (c.raised +ℤ net_of amount) }));
  })
  previous ← gets (λ s. s.asset_raised id asset)
  modify (λ s. record s {
    asset_raised =
        update_asset s.asset_raised id asset
          (some (wrap_i128 (unwrap_or previous (pos 0) +ℤ net_of amount)));
  })

-- The unique donors of a campaign; the list is stored only if it grows.
unfoldable pub add_donor : ℕ → Address → M ⊤
add_donor id donor = modify (λ s.
    if any (λ a. a == donor) (donors_of s id)
    then s
    else record s { donors = update s.donors id (some (donors_of s id ++ donor ∷ [])) })

-- The history, the metadata and the donors.
unfoldable pub donate_record : Env → Address → ℕ → ℤ → Symbol → String → M ⊤
donate_record env donor id amount asset memo = do
  modify (λ s. record s {
    history =
        update s.history id (some (history_of s id ++ donation_record env donor amount asset ∷ []));
  })
  modify (λ s. record s {
    donation = update₂ s.donation id donor (
        some (record {
          campaign_id = id;
          donor = donor;
          amount = amount;
          memo = memo;
          timestamp = env.timestamp;
        }));
  })
  add_donor id donor

unfoldable pub count_tx : M ⊤
count_tx = modify (λ s. record s { total_tx = some (wrapping_add_u64 (unwrap_or s.total_tx 0) 1) })

unfoldable pub count_donation : M ⊤
count_donation =
    modify (λ s. record s {
      total_donations = some (wrapping_add_u64 (unwrap_or s.total_donations 0) 1);
    })

unfoldable pub count_withdrawal : M ⊤
count_withdrawal = modify (λ s. record s {
  total_withdrawals = some (wrapping_add_u64 (unwrap_or s.total_withdrawals 0) 1);
})

unfoldable pub donate : Env → Address → ℕ → ℤ → Symbol → String → M ⊤
donate env donor id amount asset memo = do
  c ← donate_checks env donor id amount asset
  donate_totals id amount asset c
  donate_record env donor id amount asset memo
  publish (CoreEvent.donation_received donor id amount asset memo)
  count_tx
  count_donation

-- A request that exists and is not submitted blocks another.
abbrev pub is_open : Option WithdrawalRequest → Bool
is_open none = false
is_open (some r) = not (is_submitted r.status)

unfoldable pub withdraw_checks : Env → Address → ℕ → ℤ → M ⊤
withdraw_checks env creator id amount = do
  demand (env.authorized creator)
  panic_if (leb_ℤ amount (pos 0)) invalid_withdrawal_amount
  found ← gets (λ s. s.campaigns id)
  c ← or_panic found campaign_not_found
  panic_if (not (c.creator == creator)) unauthorized
  panic_if (ltb_ℤ c.raised amount) insufficient_funds
  existing ← gets (λ s. s.pending_withdrawal id)
  panic_if (is_open existing) withdrawal_already_pending

abbrev pub new_request : ℕ → Address → ℤ → WithdrawalRequest
new_request id recipient amount = record {
  campaign_id = id;
  recipient = recipient;
  amount = amount;
  status = pending;
}

abbrev put_request : ℕ → WithdrawalRequest → M ⊤
put_request id r =
    modify (λ s. record s { pending_withdrawal = update s.pending_withdrawal id (some r) })

unfoldable pub withdraw : Env → Address → ℕ → Address → ℤ → M ⊤
unfolding withdraw_checks count_tx count_withdrawal
withdraw env creator id recipient amount = do
  withdraw_checks env creator id amount
  put_request id (new_request id recipient amount)
  count_tx
  count_withdrawal
  publish (CoreEvent.withdrawal_requested creator id recipient amount)

-- The administrator's authorization.
unfoldable pub check_admin : Env → Address → M ⊤
check_admin env admin = do
  demand (env.authorized admin)
  stored ← gets (λ s. s.admin)
  a ← or_panic stored not_initialized
  panic_if (not (admin == a)) unauthorized

unfoldable pub approve_withdrawal : Env → Address → ℕ → M WithdrawalRequest
unfolding check_admin wrap_i128
approve_withdrawal env admin id = do
  check_admin env admin
  found ← gets (λ s. s.pending_withdrawal id)
  r ← or_panic found no_pending_withdrawal
  panic_if (not (is_pending r.status)) withdrawal_not_pending
  stored ← gets (λ s. s.campaigns id)
  c ← or_panic stored campaign_not_found
  panic_if (ltb_ℤ c.raised r.amount) insufficient_funds
  modify (λ s. record s {
    campaigns =
        update s.campaigns id (some (record c { raised = wrap_i128 (c.raised -ℤ r.amount) }));
  })
  put_request id (record r { status = approved })
  publish (CoreEvent.withdrawal_approved admin id r.amount)
  pure (record r { status = approved })

unfoldable pub submit_transaction : Env → Address → ℕ → M WithdrawalRequest
unfolding check_admin
submit_transaction env admin id = do
  check_admin env admin
  found ← gets (λ s. s.pending_withdrawal id)
  r ← or_panic found no_pending_withdrawal
  panic_if (not (is_approved r.status)) withdrawal_not_approved
  put_request id (record r { status = submitted })
  publish (CoreEvent.transaction_submitted admin id r.amount)
  pure (record r { status = submitted })
