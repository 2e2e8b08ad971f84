-- ===== src/Core/Book.antt =====
-- What the contract in crates/contracts/core/src/lib.rs promises to who reads its events: the book
-- that the events alone determine, and when each event may be published. The amounts of the book are
-- exact; it knows nothing of the contract's storage.
use orbit_chain_contracts.Common.{
  ℕ, suc, ℤ, pos, ◌+ℤ◌, ◌-ℤ◌, ◌<ℤ◌, ◌≤ℤ◌, ◌≡◌, ◌≢◌, String, Bool, true, false, not, Option, none,
  some, List, [], ◌∷◌, ◌++◌, ◌==◌, any, update, update₂, wrap_i128, if◌then◌else◌,
}
use orbit_chain_contracts.Types.{Address}
use orbit_chain_contracts.Core.Types.{
  Symbol, base_fee, WithdrawalStatus, pending, approved, submitted, CoreEvent, campaign_created,
  donation_received, withdrawal_requested, withdrawal_approved, transaction_submitted,
}
use orbit_chain_contracts.Core.Contract.{is_submitted, update_asset}

pub record Promise : Type 0 where
  pub recipient : Address
  pub amount : ℤ
  pub stage : WithdrawalStatus

pub record Receipt : Type 0 where
  pub donor : Address
  pub net : ℤ
  pub fee : ℤ
  pub asset : Symbol

-- What the events say of a campaign itself.
pub record Profile : Type 0 where
  pub id : ℕ
  pub creator : Address
  pub active : Bool

-- The last donation of a donor to a campaign, before the fee.
pub record Gift : Type 0 where
  pub campaign_id : ℕ
  pub donor : Address
  pub amount : ℤ
  pub memo : String

pub record Book : Type 0 where
  pub profile : ℕ → Option Profile
  pub gift : ℕ → Address → Option Gift
  pub balance : ℕ → Option ℤ
  pub per_asset : ℕ → Symbol → ℤ
  pub promised : ℕ → Option Promise
  pub receipts : ℕ → List Receipt
  pub donors : ℕ → List Address
  pub donations : ℕ
  pub withdrawals : ℕ

abbrev pub blank : Book
blank = record {
  profile = λ id. none;
  gift = λ id donor. none;
  balance = λ id. none;
  per_asset = λ id asset. pos 0;
  promised = λ id. none;
  receipts = λ id. [];
  donors = λ id. [];
  donations = 0;
  withdrawals = 0;
}

abbrev pub plus : ℤ → Option ℤ → Option ℤ
plus amount none = none
plus amount (some v) = some (v +ℤ amount)

abbrev pub minus : ℤ → Option ℤ → Option ℤ
minus amount none = none
minus amount (some v) = some (v -ℤ amount)

abbrev pub move_to : WithdrawalStatus → Option Promise → Option Promise
move_to stage none = none
move_to stage (some p) = some (record p { stage = stage })

abbrev pub insert : Address → List Address → List Address
insert donor donors = if any (λ a. a == donor) donors then donors else donors ++ donor ∷ []

unfoldable pub enter : CoreEvent → Book → Book
enter (campaign_created creator id) b = record b {
  balance = update b.balance id (some (pos 0));
  profile = update b.profile id (some (record { id = id; creator = creator; active = true }));
}
enter (donation_received donor id amount asset memo) b = record b {
  gift =
      update₂ b.gift id donor
        (some (record { campaign_id = id; donor = donor; amount = amount; memo = memo }));
  balance = update b.balance id (plus (amount -ℤ base_fee) (b.balance id));
  per_asset = update_asset b.per_asset id asset (b.per_asset id asset +ℤ (amount -ℤ base_fee));
  receipts = update b.receipts id (
      b.receipts id
      ++ record { donor = donor; net = amount -ℤ base_fee; fee = base_fee; asset = asset } ∷ []);
  donors = update b.donors id (insert donor (b.donors id));
  donations = suc b.donations;
}
enter (withdrawal_requested creator id recipient amount) b = record b {
  promised =
      update b.promised id
        (some (record { recipient = recipient; amount = amount; stage = pending }));
  withdrawals = suc b.withdrawals;
}
enter (withdrawal_approved admin id amount) b = record b {
  balance = update b.balance id (minus amount (b.balance id));
  promised = update b.promised id (move_to approved (b.promised id));
}
enter (transaction_submitted admin id amount) b = record b {
  promised = update b.promised id (move_to submitted (b.promised id));
}

-- The events, the last one first.
unfoldable pub book_of : List CoreEvent → Book
unfolding enter
book_of [] = blank
book_of (e ∷ es) = enter e (book_of es)

abbrev pub is_outstanding : Option Promise → Bool
is_outstanding none = false
is_outstanding (some p) = not (is_submitted p.stage)

-- When an event may follow the events that the book holds.
unfoldable pub Allowed : CoreEvent → Book → Type 0
Allowed (campaign_created creator id) b = Unit
Allowed (donation_received donor id amount asset memo) b =
    (base_fee <ℤ amount) × (asset ≢ "") × (v : ℤ) × (b.balance id ≡ some v)
Allowed (withdrawal_requested creator id recipient amount) b =
    (pos 0 <ℤ amount)
    × (is_outstanding (b.promised id) ≡ false)
    × (v : ℤ) × (b.balance id ≡ some v)
    × (amount ≤ℤ wrap_i128 v)
Allowed (withdrawal_approved admin id amount) b =
    (p : Promise) × (b.promised id ≡ some p)
    × (p.stage ≡ pending)
    × (p.amount ≡ amount)
    × (v : ℤ) × (b.balance id ≡ some v)
    × (amount ≤ℤ wrap_i128 v)
Allowed (transaction_submitted admin id amount) b =
    (p : Promise) × (b.promised id ≡ some p) × (p.stage ≡ approved) × (p.amount ≡ amount)

-- Each event was allowed after those before it.
unfoldable pub IsLawful : List CoreEvent → Type 0
unfolding Allowed
IsLawful [] = Unit
IsLawful (e ∷ es) = Allowed e (book_of es) × IsLawful es
