-- ===== src/History/Guards.antt =====
-- The freeze flag against the entry points of campaign/src/lib.rs.
use orbit_chain_contracts.Common.{
  ℕ, ℤ, ◌≡◌, sym, ap, ◌∙◌, Bool, true, false, Option, some, unwrap_or, arith,
}
use orbit_chain_contracts.Types.{Address, AssetInfo, Hash}
use orbit_chain_contracts.Host.{Env, State, ok}
use orbit_chain_contracts.Contract
use orbit_chain_contracts.Effects.Donation.{donate-Donated}
use orbit_chain_contracts.Effects.Refund.{claim_refund-Refunded}
use orbit_chain_contracts.Effects.Release.{release_milestone-Released}
use orbit_chain_contracts.Effects.Lifecycle.{
  end_campaign-Concluded, cancel_campaign-Concluded, extend_deadline-Extended,
}
use orbit_chain_contracts.Effects.Admin.{release_milestone-ThroughCreator, upgrade-AdminCall}

frozen_twice : (o : Option Bool) → o ≡ some true → unwrap_or o false ≡ false → ⊥
frozen_twice o h k = ground arith

module _ {T : Type 0} (env : Env T) (s u : State T) where
  -- While the contract is frozen none of these returns: a donation, a claim of a refund, a release of
  -- a milestone in the primary asset, the end, the cancellation, an extension and an upgrade.
  pub frozen_refuses :
      s.frozen ≡ some true
      → ((donor : Address) (amount : ℤ) (asset : AssetInfo)
          → ¬ (Contract.donate env donor amount asset s ≡ ok (tt, u)))
        × ((donor : Address) → ¬ (Contract.claim_refund env donor s ≡ ok (tt, u)))
        × ((i : ℕ) (recipient : Address)
            → ¬ (Contract.release_milestone env i recipient s ≡ ok (tt, u)))
        × (¬ (Contract.end_campaign env s ≡ ok (tt, u)))
        × (¬ (Contract.cancel_campaign env s ≡ ok (tt, u)))
        × ((t : ℕ) → ¬ (Contract.extend_deadline env t s ≡ ok (tt, u)))
        × ((hash : Hash) → ¬ (Contract.upgrade env hash s ≡ ok (tt, u)))
  frozen_refuses h = (
    λ donor amount asset k.
        frozen_twice s.frozen h (donate-Donated env donor amount asset s k).admitted.not_frozen,
    λ donor k. frozen_twice s.frozen h (claim_refund-Refunded env donor s k).refundable.not_frozen,
    λ i recipient k.
        let x = release_milestone-ThroughCreator env i recipient s k in
        let y = release_milestone-Released env i recipient x.before x.released in
        frozen_twice s.frozen h
          (sym (ap (λ (w : State T). unwrap_or w.frozen false) x.read) ∙ y.releasable.not_frozen),
    λ k. frozen_twice s.frozen h (end_campaign-Concluded env s k).by_creator.not_frozen,
    λ k. frozen_twice s.frozen h (cancel_campaign-Concluded env s k).by_creator.not_frozen,
    λ t k. frozen_twice s.frozen h (extend_deadline-Extended env t s k).by_creator.not_frozen,
    λ hash k. frozen_twice s.frozen h (upgrade-AdminCall env hash s k).0,
  )
