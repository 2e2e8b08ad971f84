-- ===== src/Validation.antt =====
-- campaign/src/validation.rs: validation of inputs, of transitions and of refunds.
use orbit_chain_contracts.Common.{
  ℕ, zero, suc, ℤ, String, Bool, true, false, not, Option, none, some, List, [], ◌∷◌, any, find,
  str_eq, get_last?, ltb, leb_ℤ, eqb_ℤ, wrapping_add_u64, if◌then◌else◌,
}
use orbit_chain_contracts.Types.{
  Error, Address, StellarAsset, AssetInfo, native, stellar, CampaignStatus, active, goal_reached,
  ended, cancelled, MilestoneStatus, locked, unlocked, released, is_released, is_terminal,
  CampaignData, MilestoneData, DonorRecord, asset_not_accepted, invalid_asset_code,
  invalid_milestones, milestone_mismatch, invalid_campaign_transition, invalid_milestone_transition,
  refund_not_permitted, refund_window_closed, refund_already_claimed, unauthorized,
}
use orbit_chain_contracts.Host.{
  Env, M, ⊤, ok, err, contract, pure, panic, panic_if, or_panic, require_auth, ◌>>=◌, ◌>>◌,
}
use orbit_chain_contracts.Storage.{get_campaign, get_milestone}
use orbit_chain_contracts.AssetAuth.{has_issuer}

-- 30 days in seconds.
abbrev pub refund_window : ℕ
refund_window = 2592000

-- `find(..).and_then(|a| a.issuer.clone())`
abbrev issuer_of : Option StellarAsset → Option Address
issuer_of none = none
issuer_of (some a) = a.issuer

abbrev code_of : Option StellarAsset → String
code_of none = "UNKNOWN"
code_of (some a) = a.asset_code

unfoldable pub token_address_of : AssetInfo → CampaignData → Option Address
token_address_of (stellar addr) c =
    if any (has_issuer addr) c.accepted_assets then some addr else none
token_address_of native c = issuer_of (find (λ a. str_eq a.asset_code "XLM") c.accepted_assets)

unfoldable pub resolve_asset_code : AssetInfo → CampaignData → String
resolve_asset_code native c = "XLM"
resolve_asset_code (stellar addr) c = code_of (find (has_issuer addr) c.accepted_assets)

unfoldable pub all_codes_present : List StellarAsset → Bool
all_codes_present assets = not (any (λ a. str_eq a.asset_code "") assets)

-- The loop over neighbours: each target is below the next one.
unfoldable pub is_ascending : List MilestoneData → Bool
is_ascending [] = true
is_ascending (m ∷ []) = true
is_ascending (m ∷ n ∷ ms) =
    let rest = is_ascending (n ∷ ms) in
    if leb_ℤ n.target_amount m.target_amount then false else rest

unfoldable pub validate_campaign_transition : CampaignStatus → CampaignStatus → Option Error
validate_campaign_transition active goal_reached = none
validate_campaign_transition active ended = none
validate_campaign_transition active cancelled = none
validate_campaign_transition goal_reached ended = none
validate_campaign_transition goal_reached cancelled = none
validate_campaign_transition ended cancelled = none
validate_campaign_transition _ _ = some invalid_campaign_transition

unfoldable pub validate_milestone_transition : MilestoneStatus → MilestoneStatus → Option Error
validate_milestone_transition locked unlocked = none
validate_milestone_transition locked released = none
validate_milestone_transition unlocked released = none
validate_milestone_transition _ _ = some invalid_milestone_transition

abbrev pub is_released_entry : Option MilestoneData → Bool
is_released_entry none = false
is_released_entry (some m) = is_released m.status

abbrev pub first_error : Option Error → Option Error → Option Error
first_error none e = e
first_error (some x) e = some x

module _ {T : Type 0} where
  -- `Err(e)` returned to the entry point ends the call with the contract error `e`.
  abbrev pub or_error : Option Error → M T ⊤
  or_error none s = ok (tt, s)
  or_error (some e) s = err (contract e)

  unfoldable pub require_creator : Env T → M T ⊤
  unfolding get_campaign
  require_creator env = do
    found ← get_campaign
    c ← or_panic found unauthorized
    require_auth env c.creator

  unfoldable pub get_token_address_for_asset : AssetInfo → CampaignData → M T Address
  get_token_address_for_asset asset c = or_panic (token_address_of asset c) asset_not_accepted

  unfoldable pub validate_assets : List StellarAsset → M T ⊤
  validate_assets assets = panic_if (not (all_codes_present assets)) invalid_asset_code

  abbrev matches_goal : ℤ → Option MilestoneData → M T ⊤
  matches_goal goal none = panic invalid_milestones
  matches_goal goal (some m) = panic_if (not (eqb_ℤ m.target_amount goal)) milestone_mismatch

  unfoldable pub validate_milestones : List MilestoneData → ℤ → M T ⊤
  validate_milestones ms goal = do
    panic_if (not (is_ascending ms)) invalid_milestones
    matches_goal goal (get_last? ms)

  -- The loop over the milestones `i .. i + n`: is one of them released?
  unfoldable pub released_among : ℕ → ℕ → M T Bool
  unfolding get_milestone
  released_among i zero = pure false
  released_among i (suc n) = do
    found ← get_milestone i
    elim (is_released_entry found) [ true ↦ pure true | false ↦ released_among (suc i) n ]

  refund_status_check : CampaignStatus → ℕ → M T (Option Error)
  refund_status_check cancelled n = pure none
  refund_status_check ended n = do
    found ← released_among 0 n
    pure (if found then some refund_not_permitted else none)
  refund_status_check _ n = pure (some refund_not_permitted)

  -- The tests that follow those of the status.
  unfoldable pub refund_window_check : Env T → CampaignData → DonorRecord → Option Error
  refund_window_check env c r =
      if ltb (wrapping_add_u64 c.end_time refund_window) env.timestamp
      then some refund_window_closed
      else if r.refund_claimed
      then some refund_already_claimed
      else none

  -- `none` is `Ok(())`. `end_time + REFUND_WINDOW` wraps: the release profile has no overflow checks.
  unfoldable pub check_refund_eligibility : Env T → CampaignData → DonorRecord → M T (Option Error)
  unfolding refund_status_check refund_window_check
  check_refund_eligibility env c r =
      if not (is_terminal c.status) then pure (some refund_not_permitted) else (do
        e ← refund_status_check c.status c.milestone_count
        pure (first_error e (refund_window_check env c r)))
