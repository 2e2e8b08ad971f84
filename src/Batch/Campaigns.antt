-- ===== src/Batch/Campaigns.antt =====
-- Batches of crates/contracts/batch-donor over the campaign contracts of campaign/src: the state of
-- the other contracts is a campaign contract at each address, with the token contracts that they share.
use orbit_chain_contracts.Common.{
  ℕ, String, ℤ, pos, ◌+ℤ◌, ◌≡◌, refl, ap, ◌∙◌, inl, inr, Bool, Option, none, some, List, [], ◌∷◌,
  arith, ◌==◌, update, str_eq, if◌then◌else◌, Bool-cases, +ℤ_parts, eq_of_parts,
}
use orbit_chain_contracts.Types.{Address, CampaignData}
use orbit_chain_contracts.Types
use orbit_chain_contracts.Host.{Env, State, Result}
use orbit_chain_contracts.Host
use orbit_chain_contracts.Contract.{donate, raise_campaign}
use orbit_chain_contracts.Effects.Donation.{donate-Donated, with_donation}
use orbit_chain_contracts.Exec
use orbit_chain_contracts.Batch.Types.{
  AssetInfo, native, stellar, DonateTarget, BatchDonateOutcome, success, BatchDonateResult, Val,
  address_val, i128_val, asset_val,
}
use orbit_chain_contracts.Batch.Contract.{called, batch_donate_continue_on_error}
use orbit_chain_contracts.Batch.BestEffort.{
  Processed, done, rejected, donated, failed, returned-Processed,
}

pub record World (T : Type 0) : Type 0 where
  pub campaigns : Address → State T
  pub tokens : T

-- Both contracts write the two kinds of asset in the same way.
abbrev pub asset_of : AssetInfo → Types.AssetInfo
asset_of native = Types.AssetInfo.native
asset_of (stellar a) = Types.AssetInfo.stellar a

add_zero : (a : ℤ) → a ≡ a +ℤ pos 0
add_zero a = eq_of_parts a (a +ℤ pos 0) (omega (arith, +ℤ_parts a (pos 0)))

add_assoc : (a b c : ℤ) → (a +ℤ b) +ℤ c ≡ a +ℤ (b +ℤ c)
add_assoc a b c =
    eq_of_parts ((a +ℤ b) +ℤ c) (a +ℤ (b +ℤ c))
      (omega (arith, +ℤ_parts (a +ℤ b) c, +ℤ_parts a b, +ℤ_parts a (b +ℤ c), +ℤ_parts b c))

-- A success adds the amount to the campaign that was donated to.
give : Address → DonateTarget → BatchDonateOutcome → ℤ → ℤ
give a t success rest = if t.campaign == a then t.amount +ℤ rest else rest
give a t _ rest = rest

module _ {T : Type 0} (env : Address → Env T) where
  abbrev state_at : Address → World T → State T
  state_at c w = record (w.campaigns c) { tokens = w.tokens }

  -- The world after a call that ended in `r`.
  abbrev settled : {A : Type 0} → Address → World T → Result (A × State T) → Option (World T)
  settled c w (Host.ok (_, s')) =
      some (record { campaigns = update w.campaigns c s'; tokens = s'.tokens })
  settled c w _ = none

  -- The host's call of `donate`: a call with other arguments, or of another name, fails.
  abbrev pub invoke_campaign : Address → String → List Val → World T → Option (World T)
  invoke_campaign c fn (address_val donor ∷ i128_val amount ∷ asset_val asset ∷ []) w =
      if str_eq fn "donate"
      then settled c w (donate (env c) donor amount (asset_of asset) (state_at c w))
      else none
  invoke_campaign c fn _ w = none

  raised_of : Option CampaignData → ℤ
  raised_of none = pos 0
  raised_of (some c) = c.raised_amount

  -- What the campaign at an address has raised.
  pub raised_at : Address → World T → ℤ
  raised_at a w = raised_of (w.campaigns a).campaign_data

  settled_lem :
      (c : Address) (w w' : World T) (r : Result (Unit {0} × State T))
      → settled c w r ≡ some w'
      → (s' : State T) × (r ≡ Host.ok (tt, s'))
        × (w' ≡ record { campaigns = update w.campaigns c s'; tokens = s'.tokens })
  settled_lem c w w' (Host.ok (tt, s')) h = (s', refl, ground arith)
  settled_lem c w w' (Host.err f) h = absurd (ground arith)

  raises_after :
      (w : World T) (s' : State T) (c : CampaignData) (k a : Address) (amount : ℤ)
      → (w.campaigns k).campaign_data ≡ some c
      → s'.campaign_data ≡ some (with_donation c amount)
      → raised_at a (record { campaigns = update w.campaigns k s'; tokens = s'.tokens })
        ≡ (if k == a then raised_at a w +ℤ amount else raised_at a w)
  unfolding raised_at raised_of raise_campaign
  raises_after w s' c k a amount h q = elim (Bool-cases (k == a)) [
    | inl e ↦ ground arith
    | inr e ↦ ground arith
  ]

  called_raises :
      (t : DonateTarget) (w w' : World T) (a : Address)
      → called invoke_campaign t w ≡ some w'
      → raised_at a w' ≡ (if t.campaign == a then raised_at a w +ℤ t.amount else raised_at a w)
  called_raises t w w' a h =
      let result =
        donate (env t.campaign) t.donor t.amount (asset_of t.asset) (state_at t.campaign w) in
      let (s', e, q) = settled_lem t.campaign w w' result h in
      let d =
        donate-Donated (env t.campaign) t.donor t.amount (asset_of t.asset) (state_at t.campaign w)
          e in
      let after = ap (λ (x : State T). x.campaign_data) d.state_after in
      ap (raised_at a) q
      ∙ raises_after w s' d.campaign t.campaign a t.amount d.admitted.stored after

  -- What the successes of a batch gave to the campaign at an address.
  pub received : Address → List DonateTarget → List BatchDonateResult → ℤ
  received a (t ∷ ts) (r ∷ rs) = give a t r.outcome (received a ts rs)
  received a _ _ = pos 0

  processed_raises :
      (a : Address) {i : ℕ} {ts : List DonateTarget} {w w' : World T} {rs : List BatchDonateResult}
      → Processed invoke_campaign i ts w rs w'
      → raised_at a w' ≡ raised_at a w +ℤ received a ts rs
  unfolding received give
  processed_raises a (done {w = w}) = add_zero (raised_at a w)
  processed_raises a (rejected {t = t} n p) = processed_raises a p
  processed_raises a (donated {t = t} {ts = ts} {w = w} {w₁ = w₁} {rs = rs} n e p) =
      let rest = processed_raises a p in
      let this = called_raises t w w₁ a e in
      let group = add_assoc (raised_at a w) t.amount (received a ts rs) in
      elim (Bool-cases (t.campaign == a)) [ inl q ↦ ground arith | inr q ↦ ground arith ]
  processed_raises a (failed {t = t} n e p) = processed_raises a p

  -- A best-effort batch over campaign contracts raises each campaign by exactly the sum of the amounts
  -- of its targets that are reported as successes; a campaign without one has raised what it had.
  pub batch_donate_continue_on_error-raises :
      (authorized : Address → Bool) (operator : Address) (ts : List DonateTarget) (w w' : World T)
      (rs : List BatchDonateResult)
      → batch_donate_continue_on_error invoke_campaign authorized operator ts w ≡ Exec.ok (rs, w')
      → (a : Address) → raised_at a w' ≡ raised_at a w +ℤ received a ts rs
  batch_donate_continue_on_error-raises authorized operator ts w w' rs h a =
      processed_raises a (returned-Processed invoke_campaign authorized operator ts w w' rs h)
