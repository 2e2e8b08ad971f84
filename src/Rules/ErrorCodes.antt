-- ===== src/Rules/ErrorCodes.antt =====
-- No two errors of campaign/src/types.rs share a code.
use orbit_chain_contracts.Common.{
  ℕ, ◌≡◌, refl, ap, Option, none, some, List, [], ◌∷◌, ◌==◌, if◌then◌else◌,
}
use orbit_chain_contracts.Types.{
  Error, code, already_initialized, not_initialized, unauthorized, campaign_ended,
  campaign_not_active, asset_not_accepted, donation_too_small, milestone_not_found,
  milestone_not_unlocked, previous_milestone_not_released, cannot_cancel_with_funds,
  refund_window_closed, invalid_goal_amount, invalid_end_time, invalid_milestones,
  insufficient_contract_balance, overflow, invalid_assets, invalid_asset_code, milestone_mismatch,
  invalid_milestone_count, invalid_campaign_transition, invalid_milestone_transition,
  goal_not_reached, invalid_storage_value, storage_write_error, invalid_recipient,
  missing_issuer_address, zero_release_amount, nothing_to_release,
  milestone_released_exceeds_target, milestone_already_released, unreleased_milestones_exist,
  refund_not_permitted, no_donor_record, refund_already_claimed, reentrant_call, invalid_amount,
  contract_frozen, asset_blocked,
}

abbrev all_errors : List Error
all_errors =
    already_initialized ∷ not_initialized ∷ unauthorized ∷ campaign_ended ∷ campaign_not_active
    ∷ asset_not_accepted ∷ donation_too_small ∷ milestone_not_found ∷ milestone_not_unlocked
    ∷ previous_milestone_not_released ∷ cannot_cancel_with_funds ∷ refund_window_closed
    ∷ invalid_goal_amount ∷ invalid_end_time ∷ invalid_milestones ∷ insufficient_contract_balance
    ∷ overflow ∷ invalid_assets ∷ invalid_asset_code ∷ milestone_mismatch ∷ invalid_milestone_count
    ∷ invalid_campaign_transition ∷ invalid_milestone_transition ∷ goal_not_reached
    ∷ invalid_storage_value ∷ storage_write_error ∷ invalid_recipient ∷ missing_issuer_address
    ∷ zero_release_amount ∷ nothing_to_release ∷ milestone_released_exceeds_target
    ∷ milestone_already_released ∷ unreleased_milestones_exist ∷ refund_not_permitted
    ∷ no_donor_record ∷ refund_already_claimed ∷ reentrant_call ∷ invalid_amount ∷ contract_frozen
    ∷ asset_blocked ∷ []

-- The first error of the list that has the code.
decode : List Error → ℕ → Option Error
unfolding code
decode [] n = none
decode (e ∷ es) n = let rest = decode es n in if code e == n then some e else rest

decode-code : (e : Error) → decode all_errors (code e) ≡ some e
unfolding decode
decode-code already_initialized = refl
decode-code not_initialized = refl
decode-code unauthorized = refl
decode-code campaign_ended = refl
decode-code campaign_not_active = refl
decode-code asset_not_accepted = refl
decode-code donation_too_small = refl
decode-code milestone_not_found = refl
decode-code milestone_not_unlocked = refl
decode-code previous_milestone_not_released = refl
decode-code cannot_cancel_with_funds = refl
decode-code refund_window_closed = refl
decode-code invalid_goal_amount = refl
decode-code invalid_end_time = refl
decode-code invalid_milestones = refl
decode-code insufficient_contract_balance = refl
decode-code overflow = refl
decode-code invalid_assets = refl
decode-code invalid_asset_code = refl
decode-code milestone_mismatch = refl
decode-code invalid_milestone_count = refl
decode-code invalid_campaign_transition = refl
decode-code invalid_milestone_transition = refl
decode-code goal_not_reached = refl
decode-code invalid_storage_value = refl
decode-code storage_write_error = refl
decode-code invalid_recipient = refl
decode-code missing_issuer_address = refl
decode-code zero_release_amount = refl
decode-code nothing_to_release = refl
decode-code milestone_released_exceeds_target = refl
decode-code milestone_already_released = refl
decode-code unreleased_milestones_exist = refl
decode-code refund_not_permitted = refl
decode-code no_donor_record = refl
decode-code refund_already_claimed = refl
decode-code reentrant_call = refl
decode-code invalid_amount = refl
decode-code contract_frozen = refl
decode-code asset_blocked = refl

-- Two errors with the same code are the same error.
pub code_injective : (a b : Error) → code a ≡ code b → a ≡ b
code_injective a b h = cc (decode-code a, decode-code b, ap (decode all_errors) h)
