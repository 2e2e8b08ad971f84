-- ===== src/Effects/Returns.antt =====
-- When the calls of the creator in campaign/src/lib.rs return.
use orbit_chain_contracts.Common.{
  pos, ◌*ℤ◌, ◌≡◌, true, false, none, some, inl, inr, arith, unwrap_or, checked_mul, in_i128,
}
use orbit_chain_contracts.Types.{CampaignData, ended}
use orbit_chain_contracts.Host.{Env, State, ok, M, ⊤, ◌>>◌}
use orbit_chain_contracts.Host.Inversion.{Result-cases}
use orbit_chain_contracts.Effects.Lifecycle.{concluded}
use orbit_chain_contracts.Validation.{validate_campaign_transition}
use orbit_chain_contracts.Reports.{refresh_report_cache}
use orbit_chain_contracts.Lifecycle
use orbit_chain_contracts.Contract

module _ {T : Type 0} where
  -- The report of a campaign whose scaled amount is in range can be built.
  refresh_returns :
      (s : State T) (c : CampaignData)
      → s.campaign_data ≡ some c
      → in_i128 (c.raised_amount *ℤ pos 10000) ≡ true
      → (s' : State T) × (refresh_report_cache s ≡ ok (tt, s'))
  unfolding refresh_report_cache checked_mul
  refresh_returns s c h k = elim (Result-cases (refresh_report_cache s)) [
    | inl (_, s', e) ↦ (s', e)
    | inr (failure, e) ↦ absurd (ground arith)
  ]

  sequence_returns :
      (m k : M T ⊤) (s s₁ s' : State T)
      → m s ≡ ok (tt, s₁)
      → k s₁ ≡ ok (tt, s')
      → (m >> k) s ≡ ok (tt, s')
  sequence_returns m k s s₁ s' p q = ground arith

module _ {T : Type 0} (env : Env T) (s : State T) (c : CampaignData) where
  conclude_returns :
      s.campaign_data ≡ some c
      → env.authorized c.creator ≡ true
      → unwrap_or s.frozen false ≡ false
      → validate_campaign_transition c.status ended ≡ none
      → (s' : State T) × (Lifecycle.end_campaign env s ≡ ok (tt, s'))
        × (s'.campaign_data ≡ some (concluded c ended env.sequence))
  unfolding Lifecycle.end_campaign
  conclude_returns h a f v = elim (Result-cases (Lifecycle.end_campaign env s)) [
    | inl (_, s', e) ↦ (s', e, ground arith)
    | inr (failure, e) ↦ absurd (ground arith)
  ]

  -- The creator of a campaign that is not frozen and whose status may become ended can end it: the
  -- call returns, where the report's scaled amount is in range.
  pub end_campaign_returns :
      s.campaign_data ≡ some c
      → env.authorized c.creator ≡ true
      → unwrap_or s.frozen false ≡ false
      → validate_campaign_transition c.status ended ≡ none
      → in_i128 (c.raised_amount *ℤ pos 10000) ≡ true
      → (s' : State T) × (Contract.end_campaign env s ≡ ok (tt, s'))
  unfolding Contract.end_campaign
  end_campaign_returns h a f v k =
      let (s₁, e, stored) = conclude_returns h a f v in
      let (s', r) = refresh_returns s₁ (concluded c ended env.sequence) stored k in
      (s', sequence_returns (Lifecycle.end_campaign env) refresh_report_cache s s₁ s' e r)
