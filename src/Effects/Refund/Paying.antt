-- ===== src/Effects/Refund/Paying.antt =====
-- The payments of `claim_refund` of campaign/src/lib.rs, asset by asset.
use orbit_chain_contracts.Common.{
  ℤ, pos, ◌*ℤ◌, ◌≡◌, ◌⊎◌, ◌∙◌, subst, inl, inr, true, Option, none, some, List, [], ◌∷◌, arith,
  unwrap_or, ltb_ℤ, leb_ℤ, Bool-cases,
}
use orbit_chain_contracts.Types.{Address, StellarAsset, DataKey}
use orbit_chain_contracts.Host.{Env, State, ok, ◌>>=◌}
use orbit_chain_contracts.Host.Inversion.{>>=-eq-ok}
use orbit_chain_contracts.Storage.{bump_persistent}
use orbit_chain_contracts.Reports.{calculate_refund_amount, refund_share}
use orbit_chain_contracts.Contract.{pay_if_positive, refund_given, refund_asset, refund_assets}
use orbit_chain_contracts.Math.RefundShare.{calculate_refund_amount-eq}
use orbit_chain_contracts.Effects.Refund.Parts.{PaysOnly, PaysOnly-trans}

module _ {T : Type 0} (env : Env T) (donor : Address) where
  -- A payment of `amount` in a token: the contract holds at least as much, and the token contract
  -- made the transfer.
  pub record Paid (token : Address) (amount : ℤ) (s s' : State T) : Type 0 where
    pub positive : ltb_ℤ (pos 0) amount ≡ true
    pub covered : leb_ℤ amount (env.balance s.tokens token env.current_contract_address) ≡ true
    pub transferred :
        env.transfer s.tokens token env.current_contract_address donor amount ≡ some s'.tokens
    pub frame : PaysOnly s s'

  pay_if_positive_lem :
      (token : Address) (amount : ℤ) (s : State T) {s' : State T}
      → pay_if_positive env donor token amount s ≡ ok (tt, s')
      → Paid token amount s s' ⊎ ((leb_ℤ amount (pos 0) ≡ true) × (s' ≡ s))
  unfolding pay_if_positive
  pay_if_positive_lem token amount s h = elim (Bool-cases (ltb_ℤ (pos 0) amount)) [
    | inl more ↦ inl (record {
      positive = more;
      covered = ground arith;
      transferred = ground arith;
      frame = ground arith;
    })
    | inr nothing ↦ inr (ground arith, ground arith)
  ]

  -- The share of the donor in a token that holds `given` of theirs.
  abbrev pub share_of : ℤ → ℤ → ℤ → ℤ
  share_of numerator denominator given = refund_share (given *ℤ numerator) denominator

  -- Either exactly the share is paid, or nothing is since nothing was given or the share is not
  -- positive.
  abbrev pub Refunds : ℤ → ℤ → Address → ℤ → State T → State T → Type 0
  Refunds numerator denominator token given s s' =
      Paid token (share_of numerator denominator given) s s'
      ⊎ (((leb_ℤ given (pos 0) ≡ true)
            ⊎ (leb_ℤ (share_of numerator denominator given) (pos 0) ≡ true))
          × (s' ≡ s))

  refund_given_lem :
      (numerator denominator : ℤ) (token : Address) (given : ℤ) (s : State T) {s' : State T}
      → refund_given env donor numerator denominator token given s ≡ ok (tt, s')
      → Refunds numerator denominator token given s s'
  unfolding refund_given
  refund_given_lem numerator denominator token given s h = elim (Bool-cases (ltb_ℤ (pos 0) given)) [
    | inl some_given ↦
        let h' : (calculate_refund_amount given numerator denominator
                >>= pay_if_positive env donor token)
              s
            ≡ ok (tt, _) =
          ground arith in
        let x = >>=-eq-ok (calculate_refund_amount given numerator denominator) _ s h' in
        let (_, share, same) = calculate_refund_amount-eq given numerator denominator s x.first in
        rewrite_share share same (pay_if_positive_lem token x.value x.state x.then_rest)
    | inr nothing ↦ inr (inl (ground arith), ground arith)
  ]
    where
      rewrite_share :
          {a : ℤ} {t u : State T}
          → a ≡ share_of numerator denominator given
          → t ≡ s
          → Paid token a t u ⊎ ((leb_ℤ a (pos 0) ≡ true) × (u ≡ t))
          → Refunds numerator denominator token given s u
      rewrite_share {a} {t} {u} e same (inl paid) = inl (
          subst (λ (w : State T). Paid token (share_of numerator denominator given) w u) same
            (subst (λ (v : ℤ). Paid token v t u) e paid))
      rewrite_share e same (inr (low, kept)) = inr (inr (rw e at low), kept ∙ same)

  paid_frame :
      (numerator denominator : ℤ) (token : Address) (given : ℤ) (s s' : State T)
      → Refunds numerator denominator token given s s'
      → PaysOnly s s'
  paid_frame _ _ _ _ _ _ (inl paid) = paid.frame
  paid_frame _ _ _ _ s s' (inr (_, same)) = ground arith

  -- The loop's body pays the donor's share of what they gave in the token, or nothing.
  pub refund_asset_lem :
      (numerator denominator : ℤ) (token : Address) (s : State T) {s' : State T}
      → refund_asset env donor numerator denominator (some token) s ≡ ok (tt, s')
      → Refunds numerator denominator token
          (unwrap_or (s.donor_asset_donation donor token) (pos 0))
          (bump_persistent (DataKey.donor_asset_donation donor token) s)
          s'
  unfolding refund_asset
  refund_asset_lem numerator denominator token s h =
      refund_given_lem numerator denominator token
        (unwrap_or (s.donor_asset_donation donor token) (pos 0))
        (bump_persistent (DataKey.donor_asset_donation donor token) s) h

  -- An asset without an issuer is skipped.
  abbrev pub Payment : ℤ → ℤ → Option Address → State T → State T → Type 0
  Payment numerator denominator none s s' = s' ≡ s
  Payment numerator denominator (some token) s s' =
      Refunds numerator denominator token (unwrap_or (s.donor_asset_donation donor token) (pos 0))
        (bump_persistent (DataKey.donor_asset_donation donor token) s) s'

  refund_asset-Payment :
      (numerator denominator : ℤ) (issuer : Option Address) (s : State T) {s' : State T}
      → refund_asset env donor numerator denominator issuer s ≡ ok (tt, s')
      → Payment numerator denominator issuer s s'
  unfolding refund_asset
  refund_asset-Payment numerator denominator none s h = ground arith
  refund_asset-Payment numerator denominator (some token) s h =
      refund_asset_lem numerator denominator token s h

  refund_asset-PaysOnly :
      (numerator denominator : ℤ) (issuer : Option Address) (s : State T) {s' : State T}
      → refund_asset env donor numerator denominator issuer s ≡ ok (tt, s')
      → PaysOnly s s'
  unfolding refund_asset
  refund_asset-PaysOnly numerator denominator none s h = ground arith
  refund_asset-PaysOnly numerator denominator (some token) s h =
      paid_frame numerator denominator token
        (unwrap_or (s.donor_asset_donation donor token) (pos 0))
        (bump_persistent (DataKey.donor_asset_donation donor token) s) _
        (refund_asset_lem numerator denominator token s h)

  pub refund_assets-PaysOnly :
      (numerator denominator : ℤ) (assets : List StellarAsset) (s : State T) {s' : State T}
      → refund_assets env donor numerator denominator assets s ≡ ok (tt, s')
      → PaysOnly s s'
  unfolding refund_assets
  refund_assets-PaysOnly numerator denominator [] s h = ground arith
  refund_assets-PaysOnly numerator denominator (a ∷ rest) s h =
      let x = >>=-eq-ok (refund_asset env donor numerator denominator a.issuer) _ s h in
      let first = refund_asset-PaysOnly numerator denominator a.issuer s x.first in
      let others = refund_assets-PaysOnly numerator denominator rest x.state x.then_rest in
      PaysOnly-trans s x.state _ first others

  -- The payments of a refund, asset by asset.
  abbrev pub Payments : ℤ → ℤ → List StellarAsset → State T → State T → Type 0
  Payments numerator denominator [] s s' = s' ≡ s
  Payments numerator denominator (a ∷ rest) s s' =
      (t : State T) × Payment numerator denominator a.issuer s t
      × Payments numerator denominator rest t s'

  pub refund_assets-Payments :
      (numerator denominator : ℤ) (assets : List StellarAsset) (s : State T) {s' : State T}
      → refund_assets env donor numerator denominator assets s ≡ ok (tt, s')
      → Payments numerator denominator assets s s'
  unfolding refund_assets
  refund_assets-Payments numerator denominator [] s h = ground arith
  refund_assets-Payments numerator denominator (a ∷ rest) s h =
      let x = >>=-eq-ok (refund_asset env donor numerator denominator a.issuer) _ s h in
      (
        x.state,
        refund_asset-Payment numerator denominator a.issuer s x.first,
        refund_assets-Payments numerator denominator rest x.state x.then_rest,
      )
