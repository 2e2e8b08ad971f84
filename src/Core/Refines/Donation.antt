-- ===== src/Core/Refines/Donation.antt =====
-- `donate` keeps the storage of crates/contracts/core/src/lib.rs in step with the book.
use orbit_chain_contracts.Common.{
  ℕ, String, ℤ, pos, ◌-ℤ◌, ◌≡◌, refl, ap, inl, inr, List, [], ◌∷◌, ◌++◌, map, ◌==◌, arith, any,
  unwrap_or, wrap_i128, Bool-cases,
}
use orbit_chain_contracts.Types.{Address}
use orbit_chain_contracts.Math.Wrap.{wrap_sum}
use orbit_chain_contracts.Core.Types.{Symbol, base_fee, Campaign, CoreEvent, Env, State}
use orbit_chain_contracts.Core.Contract.{history_of, donors_of, donation_record}
use orbit_chain_contracts.Core.Effects.{MayDonate, after_donate}
use orbit_chain_contracts.Core.Book.{Book, enter, Allowed}
use orbit_chain_contracts.Core.Refines.{
  raised_of, wrapped, receipt_of, stored_receipt, profile_of, gift_of, Reads, has_balance,
}

map-append : {A B : Type 0} (f : A → B) (xs ys : List A) → map f (xs ++ ys) ≡ map f xs ++ map f ys
map-append f [] ys = refl
map-append f (x ∷ xs) ys = ap (λ zs. f x ∷ zs) (map-append f xs ys)

module _ (env : Env) (donor : Address) (id : ℕ) (amount : ℤ) (asset : Symbol) (memo : String)
    (s : State) (b : Book) (reads : Reads s b) (c : Campaign)
    (may : MayDonate env donor id amount asset memo s c) where
  abbrev event : CoreEvent
  event = CoreEvent.donation_received donor id amount asset memo

  abbrev after : State
  after = after_donate env donor id amount asset memo s c

  pub donate-Allowed : Allowed event b
  unfolding Allowed
  donate-Allowed =
      let (v, e, _) = has_balance s b reads id c may.stored in (may.enough, may.named, v, e)

  donate-balance : (j : ℕ) → raised_of (after.campaigns j) ≡ wrapped ((enter event b).balance j)
  unfolding enter
  donate-balance j =
      let old = reads.balance j in
      let (v, e, f) = has_balance s b reads id c may.stored in
      let sum = wrap_sum v (amount -ℤ base_fee) in ground arith

  donate-profile : (j : ℕ) → profile_of (after.campaigns j) ≡ (enter event b).profile j
  unfolding enter
  donate-profile j = let old = reads.profile j in let stored = may.stored in ground arith

  donate-gift : (j : ℕ) (a : Address) → gift_of (after.donation j a) ≡ (enter event b).gift j a
  unfolding enter
  donate-gift j a = let old = reads.gift j a in ground arith

  donate-per_asset :
      (j : ℕ) (a : Symbol)
      → unwrap_or (after.asset_raised j a) (pos 0) ≡ wrap_i128 ((enter event b).per_asset j a)
  unfolding enter
  donate-per_asset j a =
      let old = reads.per_asset j a in
      let old' = reads.per_asset id asset in
      let sum = wrap_sum (b.per_asset id asset) (amount -ℤ base_fee) in ground arith

  donate-receipts :
      (j : ℕ)
      → map receipt_of (history_of after j) ≡ map stored_receipt ((enter event b).receipts j)
  unfolding enter
  donate-receipts j =
      let old = reads.receipts j in
      let old' = reads.receipts id in
      let left =
        map-append receipt_of (history_of s id) (donation_record env donor amount asset ∷ []) in
      let right =
        map-append stored_receipt (b.receipts id) (
          record { donor = donor; net = amount -ℤ base_fee; fee = base_fee; asset = asset } ∷ []) in
      ground arith

  donate-donors : (j : ℕ) → donors_of after j ≡ (enter event b).donors j
  unfolding enter
  donate-donors j =
      let old = reads.donors j in
      let old' = reads.donors id in
      elim (Bool-cases (any (λ a. a == donor) (donors_of s id))) [
        | inl p ↦ ground arith
        | inr p ↦ ground arith
      ]

  pub donate-Reads : Reads after (enter event b)
  unfolding enter
  donate-Reads = record {
    balance = donate-balance;
    profile = donate-profile;
    gift = donate-gift;
    per_asset = donate-per_asset;
    promised = reads.promised;
    receipts = donate-receipts;
    donors = donate-donors;
    donations = omega (arith, reads.donations);
    withdrawals = reads.withdrawals;
    transactions = omega (arith, reads.transactions);
  }
