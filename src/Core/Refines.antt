-- ===== src/Core/Refines.antt =====
-- The contract in crates/contracts/core/src/lib.rs refines the book of its events.
pub mod Donation
pub mod Steps
pub mod Run
use orbit_chain_contracts.Common.{
  ℕ, suc, String, ℤ, pos, ◌+ℤ◌, ◌-ℤ◌, ◌%◌, ◌+◌, ◌≡◌, refl, ap, inl, inr, Bool, true, false, Option,
  none, some, List, [], ◌∷◌, ◌++◌, map, ◌==◌, arith, any, unwrap_or, update, wrap_i128, u64_max,
  Bool-cases, Option-cases,
}
use orbit_chain_contracts.Types.{Address}
use orbit_chain_contracts.Math.Wrap.{wrap_sum, wrap_sub}
use orbit_chain_contracts.Core.Types.{
  Symbol, base_fee, pending, approved, submitted, WithdrawalRequest, Campaign, DonationRecord,
  DonationMetadata, CoreEvent, Env, State,
}
use orbit_chain_contracts.Core.Contract.{net_of, history_of, donors_of, donation_record}
use orbit_chain_contracts.Core.Effects.{MayDonate, after_donate, after_create, new_donors, new_id}
use orbit_chain_contracts.Core.Book.{
  Promise, Receipt, Profile, Gift, Book, enter, Allowed, insert, plus, minus, move_to,
}

abbrev pub raised_of : Option Campaign → Option ℤ
raised_of none = none
raised_of (some c) = some c.raised

abbrev pub wrapped : Option ℤ → Option ℤ
wrapped none = none
wrapped (some v) = some (wrap_i128 v)

abbrev pub promise_of : Option WithdrawalRequest → Option Promise
promise_of none = none
promise_of (some r) = some (record { recipient = r.recipient; amount = r.amount; stage = r.status })

-- What a record of the history says, with its amount read as the contract stores it.
abbrev pub receipt_of : DonationRecord → Receipt
receipt_of d = record { donor = d.donor; net = d.amount; fee = d.fee; asset = d.asset }

abbrev pub profile_of : Option Campaign → Option Profile
profile_of none = none
profile_of (some c) = some (record { id = c.id; creator = c.creator; active = c.active })

abbrev pub gift_of : Option DonationMetadata → Option Gift
gift_of none = none
gift_of (some d) =
    some (record { campaign_id = d.campaign_id; donor = d.donor; amount = d.amount; memo = d.memo })

abbrev pub stored_receipt : Receipt → Receipt
stored_receipt r = record r { net = wrap_i128 r.net }

abbrev pub wrapped_u64 : ℕ → ℕ
wrapped_u64 n = n % suc u64_max

-- The storage reads as the book.
pub record Reads (s : State) (b : Book) : Type 0 where
  pub balance : (id : ℕ) → raised_of (s.campaigns id) ≡ wrapped (b.balance id)
  pub profile : (id : ℕ) → profile_of (s.campaigns id) ≡ b.profile id
  pub gift : (id : ℕ) (donor : Address) → gift_of (s.donation id donor) ≡ b.gift id donor
  pub per_asset :
      (id : ℕ) (asset : Symbol)
      → unwrap_or (s.asset_raised id asset) (pos 0) ≡ wrap_i128 (b.per_asset id asset)
  pub promised : (id : ℕ) → promise_of (s.pending_withdrawal id) ≡ b.promised id
  pub receipts : (id : ℕ) → map receipt_of (history_of s id) ≡ map stored_receipt (b.receipts id)
  pub donors : (id : ℕ) → donors_of s id ≡ b.donors id
  pub donations : unwrap_or s.total_donations 0 ≡ wrapped_u64 b.donations
  pub withdrawals : unwrap_or s.total_withdrawals 0 ≡ wrapped_u64 b.withdrawals
  pub transactions : unwrap_or s.total_tx 0 ≡ wrapped_u64 (b.donations + b.withdrawals)

-- A campaign that is stored has a balance, and its raised amount is that balance, wrapped.
pub has_balance :
    (s : State) (b : Book) (reads : Reads s b) (id : ℕ) (c : Campaign)
    → s.campaigns id ≡ some c
    → (v : ℤ) × (b.balance id ≡ some v) × (c.raised ≡ wrap_i128 v)
has_balance s b reads id c h =
    let old = reads.balance id in
    elim (Option-cases (b.balance id)) [
      | inl e ↦ absurd (ground arith)
      | inr (v, e) ↦ (v, e, ground arith)
    ]
