-- ===== src/Core/Views.antt =====
-- The read-only entry points of crates/contracts/core/src/lib.rs.
pub mod Pages
use Prim.Native.Nat.{min}
use orbit_chain_contracts.Common.{
  ℕ, zero, suc, ◌+◌, ◌-◌, ◌*◌, ◌%◌, ℤ, pos, negsuc, Bool, true, false, Option, none, some, List, [],
  ◌∷◌, leb, unwrap_or, length, get_elem?, u32_max, leb_ℤ, ◌-ℤ◌, ◌*ℤ◌, quot, wrap_i128,
  wrapping_add_u64, if◌then◌else◌,
}
use orbit_chain_contracts.Types.{Address}
use orbit_chain_contracts.Exec.{gets, pure, unwrap, ◌>>=◌}
use orbit_chain_contracts.Core.Types.{
  Symbol, base_fee, WithdrawalRequest, Campaign, DonationRecord, DonationMetadata, CampaignReport,
  PlatformSummary, DashboardMetrics, State,
}
use orbit_chain_contracts.Core.Contract.{M, history_of, donors_of}

abbrev pub ping : ℕ
ping = 1

abbrev pub get_campaign : ℕ → M (Option Campaign)
get_campaign id = gets (λ s. s.campaigns id)

abbrev pub get_asset_raised : ℕ → Symbol → M ℤ
get_asset_raised id asset = gets (λ s. unwrap_or (s.asset_raised id asset) (pos 0))

abbrev pub get_base_fee : ℤ
get_base_fee = base_fee

-- `u32` arithmetic of the release profile.
abbrev pub wrap_u32 : ℕ → ℕ
wrap_u32 n = n % suc u32_max

-- The loop over the records `i .. i + n`.
unfoldable pub records_from : List DonationRecord → ℕ → ℕ → M (List DonationRecord)
records_from history i zero = pure []
records_from history i (suc n) = do
  r ← unwrap (get_elem? history i)
  rest ← records_from history (suc i) n
  pure (r ∷ rest)

-- The range `start .. end` is empty if the end wrapped to less than the start.
unfoldable pub get_donation_history : ℕ → ℕ → ℕ → M (List DonationRecord)
unfolding records_from
get_donation_history id page page_size = do
  history ← gets (λ s. history_of s id)
  let start = wrap_u32 (page * page_size)
  let end = min (wrap_u32 (start + page_size)) (length history)
  elim (leb (length history) start) [
    | true ↦ pure []
    | false ↦ records_from history start (end - start)
  ]

abbrev pub get_donors : ℕ → M (List Address)
get_donors id = gets (λ s. donors_of s id)

abbrev pub get_donor_count : ℕ → M ℕ
get_donor_count id = gets (λ s. length (donors_of s id))

abbrev pub get_donation : ℕ → Address → M (Option DonationMetadata)
get_donation id donor = gets (λ s. s.donation id donor)

abbrev pub get_admin : M (Option Address)
get_admin = gets (λ s. s.admin)

abbrev pub validate_recipient : Address → Bool
validate_recipient recipient = true

abbrev pub get_withdrawal_request : ℕ → M (Option WithdrawalRequest)
get_withdrawal_request id = gets (λ s. s.pending_withdrawal id)

abbrev pub get_total_tx_count : State → ℕ
get_total_tx_count s = unwrap_or s.total_tx 0

abbrev pub get_campaign_count : State → ℕ
get_campaign_count s = unwrap_or s.count 0

abbrev pub get_total_donations : State → ℕ
get_total_donations s = unwrap_or s.total_donations 0

abbrev pub get_total_withdrawals : State → ℕ
get_total_withdrawals s = unwrap_or s.total_withdrawals 0

-- `as u32`: the low 32 bits.
abbrev pub as_u32 : ℤ → ℕ
as_u32 (pos n) = wrap_u32 n
as_u32 (negsuc n) = u32_max - wrap_u32 n

unfoldable pub bps_of : Campaign → ℕ
unfolding wrap_i128
bps_of c = as_u32 (quot (wrap_i128 (c.raised *ℤ pos 10000)) c.goal)

-- The progress in basis points, and what remains to the goal.
unfoldable pub progress : Campaign → ℕ × ℤ
unfolding bps_of
progress c =
    if leb_ℤ c.goal (pos 0)
    then (0, pos 0)
    else if leb_ℤ c.goal c.raised
    then (10000, pos 0)
    else if leb_ℤ c.raised (pos 0)
    then (0, c.goal)
    else (bps_of c, c.goal -ℤ c.raised)

unfoldable pub report_of : State → ℕ → Campaign → CampaignReport
unfolding progress
report_of s id c = record {
  campaign_id = c.id;
  creator = c.creator;
  title = c.title;
  goal = c.goal;
  raised = c.raised;
  remaining = (progress c).1;
  progress_bps = (progress c).0;
  deadline = c.deadline;
  active = c.active;
  donor_count = length (donors_of s id);
  donation_count = length (history_of s id);
}

unfoldable pub get_campaign_report : ℕ → State → Option CampaignReport
unfolding report_of
get_campaign_report id s = elim (s.campaigns id) [ none ↦ none | some c ↦ some (report_of s id c) ]

abbrev pub get_platform_summary : State → PlatformSummary
get_platform_summary s = record {
  total_campaigns = get_campaign_count s;
  total_donations = get_total_donations s;
  total_withdrawals = get_total_withdrawals s;
  total_transactions = get_total_tx_count s;
}

abbrev pub is_active : Option Campaign → Bool
is_active none = false
is_active (some c) = c.active

-- The loop over the identifiers `id .. id + n`, with what it counted so far.
unfoldable pub count_active : State → ℕ → ℕ → ℕ → ℕ
count_active s active id zero = active
count_active s active id (suc n) =
    count_active s (if is_active (s.campaigns id) then wrapping_add_u64 active 1 else active)
      (suc id) n

-- The loop ends because the count is below 2^64 - 1.
unfoldable pub get_dashboard_metrics : State → DashboardMetrics
unfolding count_active
get_dashboard_metrics s = record {
  total_campaigns = get_campaign_count s;
  active_campaigns = count_active s 0 1 (get_campaign_count s);
  total_donations = get_total_donations s;
  total_withdrawals = get_total_withdrawals s;
  total_transactions = get_total_tx_count s;
}
