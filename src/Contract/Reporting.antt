-- ===== src/Contract/Reporting.antt =====
-- The reporting entry points of campaign/src/lib.rs.
use orbit_chain_contracts.Common.{ℕ, Option, none, some, checked_add_u64, is_some, if◌then◌else◌}
use orbit_chain_contracts.Types.{
  CampaignData, CampaignReport, PlatformSummary, DashboardMetrics, overflow,
}
use orbit_chain_contracts.Host.{M, pure, or_panic, ◌>>=◌}
use orbit_chain_contracts.Storage.{
  get_campaign, get_cached_report_storage, storage_get_donation_count, storage_get_release_count,
}
use orbit_chain_contracts.Reports.{build_campaign_report, active_campaign_count}

module _ {T : Type 0} where
  unfoldable pub get_total_tx_count : M T ℕ
  unfolding storage_get_donation_count storage_get_release_count
  get_total_tx_count = do
    donations ← storage_get_donation_count
    releases ← storage_get_release_count
    or_panic (checked_add_u64 donations releases) overflow

  -- `get_campaign(..).map(|campaign| build_campaign_report(..))`
  report_of : Option CampaignData → M T (Option CampaignReport)
  unfolding build_campaign_report
  report_of none = pure none
  report_of (some c) = do r ← build_campaign_report c; pure (some r)

  unfoldable pub get_campaign_report : M T (Option CampaignReport)
  unfolding get_campaign report_of
  get_campaign_report = do found ← get_campaign; report_of found

  or_computed : Option CampaignReport → M T (Option CampaignReport)
  unfolding get_campaign_report
  or_computed none = get_campaign_report
  or_computed (some r) = pure (some r)

  unfoldable pub get_cached_report : M T (Option CampaignReport)
  unfolding get_cached_report_storage or_computed
  get_cached_report = do cached ← get_cached_report_storage; or_computed cached

  unfoldable pub get_platform_summary : M T PlatformSummary
  unfolding get_campaign active_campaign_count storage_get_donation_count storage_get_release_count
  get_platform_summary = do
    found ← get_campaign
    active ← active_campaign_count
    donations ← storage_get_donation_count
    releases ← storage_get_release_count
    total ← or_panic (checked_add_u64 donations releases) overflow
    pure (record {
      total_campaigns = if is_some found then 1 else 0;
      active_campaigns = active;
      total_donations = donations;
      total_releases = releases;
      total_transactions = total;
    })

  unfoldable pub get_dashboard_metrics : M T DashboardMetrics
  unfolding get_platform_summary
  get_dashboard_metrics = do
    summary ← get_platform_summary
    pure (record {
      total_campaigns = summary.total_campaigns;
      active_campaigns = summary.active_campaigns;
      total_donations = summary.total_donations;
      total_releases = summary.total_releases;
      total_transactions = summary.total_transactions;
    })
