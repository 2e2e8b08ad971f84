-- ===== src/Effects/Report.antt =====
-- The campaign report of campaign/src/reports.rs against a direct description of its fields.
use orbit_chain_contracts.Common.{
  ℕ, pos, ◌*ℤ◌, ◌≡◌, some, arith, unwrap_or, leb_ℤ, ◌||◌, if◌then◌else◌,
}
use orbit_chain_contracts.Types.{CampaignData, CampaignReport, remaining}
use orbit_chain_contracts.Host.{State, ok}
use orbit_chain_contracts.Reports.{build_campaign_report, refresh_report_cache, progress_bps}

-- The progress in basis points, with no overflow.
unfoldable pub progress : CampaignData → ℕ
progress c =
    if leb_ℤ c.goal_amount (pos 0) || leb_ℤ c.raised_amount (pos 0)
    then 0
    else if leb_ℤ c.goal_amount c.raised_amount
    then 10000
    else progress_bps c (c.raised_amount *ℤ pos 10000)

-- The report that the state of a campaign determines.
unfoldable pub report_value : {T : Type 0} → State T → CampaignData → CampaignReport
report_value s c = record {
  creator = c.creator;
  goal_amount = c.goal_amount;
  raised_amount = c.raised_amount;
  remaining_amount = remaining c;
  progress_bps = progress c;
  end_time = c.end_time;
  status = c.status;
  milestone_count = c.milestone_count;
  donor_count = unwrap_or s.unique_donor_count 0;
  donation_count = unwrap_or s.donation_count 0;
  release_count = unwrap_or s.release_count 0;
}

module _ {T : Type 0} where
  -- A change of the cached report and of entry lifetimes alone.
  abbrev pub CacheOnly : State T → State T → Type 0
  CacheOnly s s' = s' ≡ record s { cached_report = s'.cached_report; ttl_calls = s'.ttl_calls }

  -- A report that is built is the one that the state and the campaign determine, with the progress and
  -- the remaining amount of their direct description; only entry lifetimes change.
  pub build_campaign_report_lem :
      (c : CampaignData) (s : State T) {r : CampaignReport} {s' : State T}
      → build_campaign_report c s ≡ ok (r, s')
      → (r ≡ report_value s c) × (s' ≡ record s { ttl_calls = s'.ttl_calls })
  unfolding build_campaign_report report_value progress
  build_campaign_report_lem c s h = ground arith

  pub refresh_report_cache_lem :
      (s : State T) (c : CampaignData) {s' : State T}
      → s.campaign_data ≡ some c
      → refresh_report_cache s ≡ ok (tt, s')
      → (s'.cached_report ≡ some (report_value s c)) × CacheOnly s s'
  unfolding refresh_report_cache report_value progress
  refresh_report_cache_lem s c e h = ground arith

  pub refresh_report_cache-CacheOnly :
      (s : State T) {s' : State T} → refresh_report_cache s ≡ ok (tt, s') → CacheOnly s s'
  unfolding refresh_report_cache
  refresh_report_cache-CacheOnly s h = ground arith
