-- ===== src/Tools/ErrorMapper.antt =====
-- crates/tools/src/error_mapper.rs: the messages for the error codes of the campaign contract.
pub mod Covers
use Prim.Native.String.{◌++◌ as ◌<>◌}
use orbit_chain_contracts.Common.{
  ℕ, String, Bool, true, false, Option, none, some, List, [], ◌∷◌, length, ltb, ◌==◌, if◌then◌else◌,
}

pub record ErrorEntry : Type 0 where
  pub code : ℕ  -- u32
  pub name : String
  pub message : String
  pub severity : Option String

-- A `BTreeMap<u32, ErrorEntry>`: the entries in ascending order of their keys.
abbrev pub Codes : Type 0
Codes = List (ℕ × ErrorEntry)

unfoldable pub insert : ℕ → ErrorEntry → Codes → Codes
insert k e [] = (k, e) ∷ []
insert k e ((j, d) ∷ m) =
    let rest = insert k e m in
    if ltb k j then (k, e) ∷ (j, d) ∷ m else if k == j then (k, e) ∷ m else (j, d) ∷ rest

unfoldable pub insert_all : List ErrorEntry → Codes → Codes
unfolding insert
insert_all [] m = m
insert_all (e ∷ es) m = insert_all es (insert e.code e m)

abbrev entry : ℕ → String → String → Option String → ErrorEntry
entry code name message severity = record {
  code = code;
  name = name;
  message = message;
  severity = severity;
}

-- The requested contract error codes.
abbrev pub requested_codes : List ErrorEntry
requested_codes =
    entry 1 "AlreadyInitialized" "initialize called on an already-initialised contract." none
    ∷ entry 2 "NotInitialized" "Contract has not been initialised yet." none
    ∷ entry 3 "Unauthorized" "Caller is not authorised to perform the operation." (some "error")
    ∷ entry 4 "CampaignEnded" "The campaign deadline has already passed." none
    ∷ entry 5 "CampaignNotActive" "Operation requires the campaign to be Active or GoalReached."
        none
    ∷ entry 6 "AssetNotAccepted" "Donated asset is not in the campaign's accepted assets list." none
    ∷ entry 7 "DonationTooSmall" "Donation amount is below the campaign's minimum threshold." none
    ∷ entry 8 "MilestoneNotFound" "Milestone index is out of range for this campaign." none
    ∷ entry 9 "MilestoneNotUnlocked" "Milestone has not been unlocked yet and cannot be released."
        none
    ∷ entry 10 "PreviousMilestoneNotReleased"
        "A previous milestone must be released before this one can be released." none
    ∷ entry 11 "CannotCancelWithFunds" "Cannot cancel the campaign while it still holds funds." none
    ∷ entry 12 "RefundWindowClosed" "Refunds are no longer permitted for this campaign." none
    ∷ entry 13 "InvalidGoalAmount" "goal_amount must be strictly positive." none
    ∷ entry 14 "InvalidEndTime"
        "end_time must be strictly greater than the current ledger timestamp." none
    ∷ entry 15 "InvalidMilestones"
        "Milestones must be strictly ascending and the last must equal goal_amount." none
    ∷ entry 16 "InsufficientContractBalance"
        "Contract does not hold enough funds to fulfil the requested transfer." (some "error")
    ∷ entry 17 "Overflow" "A checked arithmetic operation overflowed." (some "error")
    ∷ []

-- Additional contract errors.
abbrev pub additional_codes : List ErrorEntry
additional_codes =
    entry 18 "InvalidAssets" "accepted_assets must be non-empty." none
    ∷ entry 19 "InvalidAssetCode"
        "asset_code must be non-empty and ≤ 12 characters (Stellar limit)." none
    ∷ entry 20 "MilestoneMismatch" "Last milestone target_amount does not equal goal_amount." none
    ∷ entry 21 "InvalidMilestoneCount" "Milestone count must be in the range [1, MAX_MILESTONES]."
        none
    ∷ entry 22 "InvalidCampaignTransition"
        "The requested campaign status transition is not permitted." none
    ∷ entry 23 "InvalidMilestoneTransition"
        "The requested milestone status transition is not permitted." none
    ∷ entry 24 "GoalNotReached" "Cannot transition to GoalReached — raised amount < goal." none
    ∷ entry 25 "InvalidStorageValue" "A storage read returned an unexpectedly invalid value."
        (some "error")
    ∷ entry 26 "StorageWriteError" "A storage write failed (entry too large, quota exceeded, etc.)."
        (some "error")
    ∷ []

-- Assets and transfers.
abbrev pub transfer_codes : List ErrorEntry
transfer_codes =
    entry 30 "InvalidRecipient"
      "Recipient address is the contract itself — would lock funds permanently." none
    ∷ entry 31 "MissingIssuerAddress"
        "The asset has no issuer address; transfers require a token contract address." none
    ∷ entry 32 "ZeroReleaseAmount" "Computed release amount is zero after proportional rounding."
        none
    ∷ entry 33 "NothingToRelease"
        "released_amount already equals target_amount; nothing left to release." none
    ∷ entry 34 "MilestoneReleasedExceedsTarget"
        "released_amount would exceed target_amount after this operation." none
    ∷ []

-- Milestones, refunds, re-entrancy, amounts and the freeze.
abbrev pub other_codes : List ErrorEntry
other_codes =
    entry 40 "MilestoneAlreadyReleased" "Milestone is already in the Released state." none
    ∷ entry 41 "UnreleasedMilestonesExist"
        "All milestones must be Released before the campaign can be concluded." none
    ∷ entry 50 "RefundNotPermitted"
        "Refunds are only permitted when the campaign is Cancelled or Ended without reaching the goal."
        none
    ∷ entry 51 "NoDonorRecord" "No donor record found for the requesting address." none
    ∷ entry 52 "RefundAlreadyClaimed" "Donor has already claimed a refund for this campaign." none
    ∷ entry 60 "ReentrantCall" "A re-entrant call was detected; operation aborted." (some "error")
    ∷ entry 70 "InvalidAmount" "A generic negative or otherwise invalid amount was supplied." none
    ∷ entry 80 "ContractFrozen" "Contract is frozen; all mutating operations are blocked."
        (some "error")
    ∷ []

unfoldable pub load_builtin : Codes
unfolding insert_all
load_builtin =
    insert_all other_codes
      (insert_all transfer_codes (insert_all additional_codes (insert_all requested_codes [])))

unfoldable pub get : ℕ → Codes → Option ErrorEntry
get code [] = none
get code ((k, e) ∷ m) = let rest = get code m in if k == code then some e else rest

-- `format!`, where `show` writes a number in decimal.
unfoldable pub lookup : (ℕ → String) → ℕ → Codes → String
unfolding get
lookup show code m = elim (get code m) [
  | some e ↦ e.name <> ": " <> e.message
  | none ↦ "Unknown error code: " <> show code
]

unfoldable pub all_entries : Codes → List ErrorEntry
all_entries [] = []
all_entries ((k, e) ∷ m) = e ∷ all_entries m

abbrev pub count : Codes → ℕ
count m = length m
