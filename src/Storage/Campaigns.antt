-- ===== src/Storage/Campaigns.antt =====
-- The campaign record and the memoised report.
use orbit_chain_contracts.Common.{Option, some}
use orbit_chain_contracts.Types.{CampaignData, CampaignReport, DataKey, not_initialized}
use orbit_chain_contracts.Host.{M, ⊤, ok, or_panic, ◌>>=◌}
use orbit_chain_contracts.Storage.Ttl.{bump_persistent}

module _ {T : Type 0} where
  unfoldable pub set_campaign : CampaignData → M T ⊤
  unfolding bump_persistent
  set_campaign c s =
      ok (tt, bump_persistent DataKey.campaign_data (record s { campaign_data = some c }))

  -- On a missing record the bump does nothing.
  unfoldable pub get_campaign : M T (Option CampaignData)
  unfolding bump_persistent
  get_campaign s = ok (s.campaign_data, bump_persistent DataKey.campaign_data s)

  unfoldable pub get_campaign_or_panic : M T CampaignData
  unfolding get_campaign
  get_campaign_or_panic = do c ← get_campaign; or_panic c not_initialized

  unfoldable pub get_cached_report_storage : M T (Option CampaignReport)
  unfolding bump_persistent
  get_cached_report_storage s = ok (s.cached_report, bump_persistent DataKey.cached_report s)

  unfoldable pub set_cached_report_storage : CampaignReport → M T ⊤
  unfolding bump_persistent
  set_cached_report_storage r s =
      ok (tt, bump_persistent DataKey.cached_report (record s { cached_report = some r }))
