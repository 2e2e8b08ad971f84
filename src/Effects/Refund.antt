-- ===== src/Effects/Refund.antt =====
-- `claim_refund` of campaign/src/lib.rs: what a call that returns has checked and changed.
mod Parts
mod Paying
pub use Parts.{check_refund_eligibility_lem, released_sum, NoneReleased, StatusAllows, PaysOnly}
pub use Paying.{Payment, Payments, Paid, Refunds, share_of, refund_asset_lem}
use orbit_chain_contracts.Common.{
  ℕ, zero, suc, ◌+◌, ◌<◌, ◌≤◌, ℤ, pos, ◌+ℤ◌, ◌-ℤ◌, ◌*ℤ◌, ◌≡◌, ◌⊎◌, refl, sym, ap, ◌∙◌, subst, inl,
  inr, Bool, true, false, Option, none, some, List, [], ◌∷◌, arith, unwrap_or, update, update_same,
  leb, ltb, ltb_ℤ, leb_ℤ, wrapping_add_u64, wrap_i128, Option-cases, Bool-cases, if◌then◌else◌,
}
use orbit_chain_contracts.Types.{
  Address, StellarAsset, CampaignData, DonorRecord, MilestoneData, CampaignStatus, cancelled, ended,
  is_terminal, DataKey,
}
use orbit_chain_contracts.Host.{Env, Event, State, ok, ◌>>=◌, ◌>>◌}
use orbit_chain_contracts.Host.Inversion.{Result-cases, >>=-eq-ok}
use orbit_chain_contracts.Storage.{
  milestones_or_legacy, entry_at, milestones, milestone_at, entry_at, bump_persistent, set_donor,
  release_lock,
}
use orbit_chain_contracts.Validation.{
  released_among, is_released_entry, check_refund_eligibility, refund_window, or_error,
}
use orbit_chain_contracts.Reports.{calculate_refund_amount, refund_share, refresh_report_cache}
use orbit_chain_contracts.Contract.{
  add_released, sum_released, pay_if_positive, refund_given, refund_asset, refund_assets,
  refund_load, refund_gate, claim_refund,
}
use orbit_chain_contracts.Math.RefundShare.{calculate_refund_amount-eq}
use orbit_chain_contracts.Effects.Report.{report_value, refresh_report_cache_lem, CacheOnly}
use orbit_chain_contracts.Effects.Refund.Parts.{refund_gate_lem, sum_released_lem}
use orbit_chain_contracts.Effects.Refund.Paying.{refund_assets-PaysOnly, refund_assets-Payments}
use orbit_chain_contracts.Effects.Steps.{release_lock_lem}

-- The tests of a refund, on the state before it, and the records found there.
pub record Refundable {T : Type 0} (env : Env T) (donor : Address) (s : State T) (c : CampaignData)
    (r : DonorRecord) : Type 0 where
  pub stored : s.campaign_data ≡ some c
  pub known : s.donor_data donor ≡ some r
  pub unlocked : s.reentrancy_lock ≡ none
  pub authorized : env.authorized donor ≡ true
  pub not_frozen : unwrap_or s.frozen false ≡ false
  pub status : StatusAllows s.milestones_vec s.milestone_data c.status c.milestone_count
  pub in_window : leb env.timestamp (wrapping_add_u64 c.end_time refund_window) ≡ true
  pub unclaimed : r.refund_claimed ≡ false

abbrev pub claimed : DonorRecord → DonorRecord
claimed r = record r { refund_claimed = true }

refund_load_lem :
    {T : Type 0} (env : Env T) (donor : Address) (s : State T) {c : CampaignData} {r : DonorRecord}
    {s' : State T}
    → refund_load env donor s ≡ ok ((c, r), s')
    → (s.campaign_data ≡ some c)
      × (s.donor_data donor ≡ some r)
      × (s.reentrancy_lock ≡ none)
      × (env.authorized donor ≡ true)
      × (unwrap_or s.frozen false ≡ false)
      × (s' ≡ record s { reentrancy_lock = some true; ttl_calls = s'.ttl_calls })
unfolding refund_load
refund_load_lem env donor s h = ground arith

-- All that a refund does to the state, for the campaign and the donor's record before it.
pub record Refunded {T : Type 0} (env : Env T) (donor : Address) (s s' : State T) : Type 0 where
  pub campaign : CampaignData
  pub donor_record : DonorRecord
  pub refundable : Refundable env donor s campaign donor_record
  pub paid_from : State T
  pub paid_to : State T
  pub payments :
      Payments env donor
        (wrap_i128 (
          campaign.raised_amount
          -ℤ released_sum s.milestones_vec s.milestone_data 0 campaign.milestone_count (pos 0)))
        campaign.raised_amount
        campaign.accepted_assets
        paid_from
        paid_to
  pub starts :
      (paid_from.tokens ≡ s.tokens) × (paid_from.donor_asset_donation ≡ s.donor_asset_donation)
  pub ends : paid_to.tokens ≡ s'.tokens
  pub report_after : s'.cached_report ≡ some (report_value s' campaign)
  pub state_after : s' ≡ record s {
    donor_data = update s.donor_data donor (some (claimed donor_record));
    reentrancy_lock = none;
    tokens = s'.tokens;
    events = s'.events;
    cached_report = s'.cached_report;
    ttl_calls = s'.ttl_calls;
  }

-- The frames of the parts, and what they add up to.
join_refund :
    {T : Type 0} (env : Env T) (donor : Address) (c : CampaignData) (r : DonorRecord) (total : ℤ)
    (s s₁ s₂ s₃ s₄ s₅ t₅ s₆ s' : State T)
    → (s.campaign_data ≡ some c)
      × (s.donor_data donor ≡ some r)
      × (s.reentrancy_lock ≡ none)
      × (env.authorized donor ≡ true)
      × (unwrap_or s.frozen false ≡ false)
      × (s₁ ≡ record s { reentrancy_lock = some true; ttl_calls = s₁.ttl_calls })
    → (s₂ ≡ record s₁ { ttl_calls = s₂.ttl_calls })
      × StatusAllows s₁.milestones_vec s₁.milestone_data c.status c.milestone_count
      × (leb env.timestamp (wrapping_add_u64 c.end_time refund_window) ≡ true)
      × (r.refund_claimed ≡ false)
    → (total ≡ released_sum s₂.milestones_vec s₂.milestone_data 0 c.milestone_count (pos 0))
      × (s₃ ≡ record s₂ { ttl_calls = s₃.ttl_calls })
    → s₄ ≡ record s₃ {
      donor_data = update s₃.donor_data donor (some (claimed r));
      ttl_calls = s₄.ttl_calls;
    }
    → PaysOnly s₄ s₅
    → Payments env donor
        (wrap_i128 (c.raised_amount -ℤ total))
        c.raised_amount
        c.accepted_assets
        s₄
        s₅
    → t₅ ≡ record s₅ { events = t₅.events }
    → (s₆.cached_report ≡ some (report_value t₅ c)) × CacheOnly t₅ s₆
    → s' ≡ record s₆ { reentrancy_lock = none; events = s'.events }
    → Refunded env donor s s'
unfolding report_value
join_refund {T} env donor c r total s s₁ s₂ s₃ s₄ s₅ t₅ s₆ s' f₁ f₂ f₃ f₄ f₅ pays g₅ f₆ f₇ =
    record {
      campaign = c;
      donor_record = r;
      refundable = record {
        stored = f₁.0;
        known = f₁.1;
        unlocked = f₁.2;
        authorized = f₁.3;
        not_frozen = f₁.4;
        status =
            subst
              (λ (w : State T).
                StatusAllows w.milestones_vec w.milestone_data c.status c.milestone_count)
              f₁.5 f₂.1;
        in_window = f₂.2;
        unclaimed = f₂.3;
      };
      paid_from = s₄;
      paid_to = s₅;
      payments =
          subst
            (λ v.
              Payments env donor (wrap_i128 (c.raised_amount -ℤ v)) c.raised_amount
                c.accepted_assets s₄ s₅)
            total_from_start pays;
      starts = (ground arith, ground arith);
      ends = ground arith;
      report_after = ground arith;
      state_after = ground arith;
    }
  where
    sum_at : State T → ℤ
    sum_at w = released_sum w.milestones_vec w.milestone_data 0 c.milestone_count (pos 0)

    total_from_start : total ≡ sum_at s
    total_from_start = f₃.0 ∙ (ap sum_at f₂.0 ∙ ap sum_at f₁.5)

abbrev campaign_of : {T : Type 0} → State T → Option CampaignData
campaign_of s = s.campaign_data

set_donor_lem :
    {T : Type 0} (donor : Address) (r : DonorRecord) (s : State T) {s' : State T}
    → set_donor donor r s ≡ ok (tt, s')
    → s' ≡ record s { donor_data = update s.donor_data donor (some r); ttl_calls = s'.ttl_calls }
unfolding set_donor
set_donor_lem donor r s h = ground arith

pub claim_refund-Refunded :
    {T : Type 0} (env : Env T) (donor : Address) (s : State T) {s' : State T}
    → claim_refund env donor s ≡ ok (tt, s')
    → Refunded env donor s s'
unfolding claim_refund
claim_refund-Refunded {T} env donor s h =
    let x₁ = >>=-eq-ok (refund_load env donor) _ s h in
    let (c, r) = x₁.value in
    let f₁ = refund_load_lem env donor s x₁.first in
    let x₂ = >>=-eq-ok (refund_gate env c r) _ x₁.state x₁.then_rest in
    let f₂ = refund_gate_lem env c r x₁.state x₂.first in
    let x₃ = >>=-eq-ok (sum_released 0 c.milestone_count (pos 0)) _ x₂.state x₂.then_rest in
    let f₃ = sum_released_lem 0 c.milestone_count (pos 0) x₂.state x₃.first in
    let x₄ = >>=-eq-ok (set_donor donor (claimed r)) _ x₃.state x₃.then_rest in
    let f₄ = set_donor_lem donor (claimed r) x₃.state x₄.first in
    let left = wrap_i128 (c.raised_amount -ℤ x₃.value) in
    let x₅ =
      >>=-eq-ok (refund_assets env donor left c.raised_amount c.accepted_assets) _ x₄.state
        x₄.then_rest in
    let f₅ =
      refund_assets-PaysOnly env donor left c.raised_amount c.accepted_assets x₄.state x₅.first in
    let pays =
      refund_assets-Payments env donor left c.raised_amount c.accepted_assets x₄.state x₅.first in
    let s₅ : State T = record (x₅.state) {
      events = Event.refund_claimed donor r.total_donated ∷ x₅.state.events;
    } in
    let x₆ = >>=-eq-ok refresh_report_cache _ s₅ x₅.then_rest in
    let x₇ = x₆.then_rest in
    let stored =
      ap campaign_of f₅
      ∙ (ap campaign_of f₄
          ∙ (ap campaign_of f₃.1 ∙ (ap campaign_of f₂.0 ∙ (ap campaign_of f₁.5 ∙ f₁.0)))) in
    join_refund env donor c r x₃.value s x₁.state x₂.state x₃.state x₄.state x₅.state s₅ x₆.state _
      f₁ f₂ f₃ f₄ f₅ pays refl (refresh_report_cache_lem s₅ c stored x₆.first)
      (release_lock_lem x₆.state x₇)

abbrev record_of : {T : Type 0} → Address → State T → Option DonorRecord
record_of donor s = s.donor_data donor

-- The record of the donor after a refund.
pub claimed_after :
    {T : Type 0} (env : Env T) (donor : Address) (s s' : State T) (x : Refunded env donor s s')
    → s'.donor_data donor ≡ some (claimed x.donor_record)
claimed_after env donor s s' x =
    ap (record_of donor) x.state_after
    ∙ update_same s.donor_data donor (some (claimed x.donor_record))
