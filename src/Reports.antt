-- ===== src/Reports.antt =====
-- campaign/src/reports.rs: the refund formula, the campaign report and its cache.
use orbit_chain_contracts.Common.{
  ℕ, ◌%◌, ◌||◌, ◌&&◌, ℤ, pos, pos_part, Option, none, some, quot, checked_mul, leb_ℤ, ltb_ℤ, eqb_ℤ,
  suc, u32_max, if◌then◌else◌,
}
use orbit_chain_contracts.Types.{
  CampaignData, CampaignReport, remaining, accepts_donations, overflow,
}
use orbit_chain_contracts.Host.{M, ⊤, pure, panic_if, or_panic, ◌>>=◌, ◌>>◌}
use orbit_chain_contracts.Storage.{
  get_campaign, set_cached_report_storage, storage_get_donation_count, storage_get_release_count,
  storage_get_unique_donor_count,
}

-- The pro-rata share, at least 1 where the exact share is positive.
unfoldable pub refund_share : ℤ → ℤ → ℤ
unfolding quot
refund_share numerator denominator =
    let refund = quot numerator denominator in
    if eqb_ℤ refund (pos 0) && ltb_ℤ (pos 0) numerator then pos 1 else refund

-- `(scaled / goal) as u32`
unfoldable pub progress_bps : CampaignData → ℤ → ℕ
unfolding quot
progress_bps c scaled = pos_part (quot scaled c.goal_amount) % suc u32_max

active_count : Option CampaignData → ℕ
active_count none = 0
active_count (some c) = if accepts_donations c.status then 1 else 0

module _ {T : Type 0} where
  unfoldable pub calculate_refund_amount : ℤ → ℤ → ℤ → M T ℤ
  calculate_refund_amount donor_asset_amount refund_numerator refund_denominator = do
    panic_if (leb_ℤ refund_denominator (pos 0)) overflow
    numerator ← or_panic (checked_mul donor_asset_amount refund_numerator) overflow
    pure (refund_share numerator refund_denominator)

  unfoldable pub active_campaign_count : M T ℕ
  unfolding get_campaign active_count
  active_campaign_count = do found ← get_campaign; pure (active_count found)

  report_progress : CampaignData → M T ℕ
  unfolding progress_bps checked_mul
  report_progress c =
      if leb_ℤ c.goal_amount (pos 0) || leb_ℤ c.raised_amount (pos 0)
      then pure 0
      else if leb_ℤ c.goal_amount c.raised_amount
      then pure 10000
      else (do
        scaled ← or_panic (checked_mul c.raised_amount (pos 10000)) overflow
        pure (progress_bps c scaled))

  unfoldable pub build_campaign_report : CampaignData → M T CampaignReport
  unfolding report_progress remaining storage_get_donation_count storage_get_release_count
      storage_get_unique_donor_count
  build_campaign_report c = do
    bps ← report_progress c
    donors ← storage_get_unique_donor_count
    donations ← storage_get_donation_count
    releases ← storage_get_release_count
    pure (record {
      creator = c.creator;
      goal_amount = c.goal_amount;
      raised_amount = c.raised_amount;
      remaining_amount = remaining c;
      progress_bps = bps;
      end_time = c.end_time;
      status = c.status;
      milestone_count = c.milestone_count;
      donor_count = donors;
      donation_count = donations;
      release_count = releases;
    })

  refresh_with : Option CampaignData → M T ⊤
  unfolding build_campaign_report set_cached_report_storage
  refresh_with none = pure tt
  refresh_with (some c) = do report ← build_campaign_report c; set_cached_report_storage report

  unfoldable pub refresh_report_cache : M T ⊤
  unfolding get_campaign refresh_with
  refresh_report_cache = do found ← get_campaign; refresh_with found
