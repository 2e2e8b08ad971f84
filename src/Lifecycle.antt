-- ===== src/Lifecycle.antt =====
-- campaign/src/contract.rs: ending, cancelling, extending, and the status view.
use orbit_chain_contracts.Common.{
  ℕ, ◌-◌, ◌/◌, ℤ, pos, some, not, ltb, leb, ◌||◌, sub_ℕ, saturating_add_u64, if◌then◌else◌,
}
use orbit_chain_contracts.Types.{
  CampaignStatus, ended, cancelled, accepts_donations, CampaignData, CampaignStatusResponse,
  not_initialized, invalid_end_time, invalid_campaign_transition,
}
use orbit_chain_contracts.Types
use orbit_chain_contracts.Host.{
  Env, Event, M, ⊤, pure, panic_if, or_panic, require_auth, publish, ◌>>=◌, ◌>>◌,
}
use orbit_chain_contracts.Storage.{get_campaign, set_campaign, is_frozen}
use orbit_chain_contracts.Validation.{validate_campaign_transition, or_error}

-- 10 * 365 days in seconds.
abbrev pub max_deadline_gap_seconds : ℕ
max_deadline_gap_seconds = 315360000

module _ {T : Type 0} (env : Env T) where
  -- The load, authorization and freeze check that the operations of the creator begin with.
  unfoldable pub load_as_creator : M T CampaignData
  unfolding get_campaign is_frozen
  load_as_creator = do
    found ← get_campaign
    c ← or_panic found not_initialized
    require_auth env c.creator
    halted ← is_frozen
    panic_if halted Types.contract_frozen
    pure c

  unfoldable pub end_campaign : M T ⊤
  unfolding load_as_creator validate_campaign_transition set_campaign
  end_campaign = do
    c ← load_as_creator
    or_error (validate_campaign_transition c.status ended)
    set_campaign (record c { status = ended; concluded_at_ledger = some env.sequence })
    publish Event.campaign_ended

  unfoldable pub cancel_campaign : M T ⊤
  unfolding load_as_creator validate_campaign_transition set_campaign
  cancel_campaign = do
    c ← load_as_creator
    or_error (validate_campaign_transition c.status cancelled)
    set_campaign (record c { status = cancelled; concluded_at_ledger = some env.sequence })
    publish (Event.campaign_cancelled c.creator)

  unfoldable pub extend_deadline : ℕ → M T ⊤
  unfolding load_as_creator set_campaign
  extend_deadline new_end_time = do
    c ← load_as_creator
    panic_if (not (accepts_donations c.status)) invalid_campaign_transition
    let max_end_time = saturating_add_u64 env.timestamp max_deadline_gap_seconds
    panic_if (leb new_end_time env.timestamp || ltb max_end_time new_end_time) invalid_end_time
    set_campaign (record c { end_time = new_end_time })
    publish (Event.deadline_extended c.creator c.end_time new_end_time)

  -- A quotient of a u64 by 86_400 fits an i64, so the casts keep the value.
  unfoldable pub days_remaining : ℕ → ℤ
  days_remaining end_time =
      if ltb env.timestamp end_time
      then pos ((end_time - env.timestamp) / 86400)
      else sub_ℕ 0 ((env.timestamp - end_time) / 86400)

  unfoldable pub get_campaign_status : M T CampaignStatusResponse
  unfolding get_campaign days_remaining
  get_campaign_status = do
    found ← get_campaign
    c ← or_panic found not_initialized
    pure (record { status = c.status; days_remaining = days_remaining c.end_time })
