-- ===== src/Effects/Release/Parts.antt =====
-- The parts of `release_milestone` of campaign/src/release_milestone.rs: the tests and the payment.
use orbit_chain_contracts.Common.{
  ℕ, zero, suc, ℤ, pos, ◌≡◌, ◌⊎◌, inl, inr, refl, true, false, Option, none, some, arith, unwrap_or,
  ltb_ℤ, leb_ℤ, min_ℤ, Option-cases, Bool-cases,
}
use orbit_chain_contracts.Types.{
  Address, StellarAsset, CampaignData, MilestoneData, MilestoneStatus, released, unlocked, locked,
  is_released, is_unlocked,
}
use orbit_chain_contracts.Host.{Env, State, ok}
use orbit_chain_contracts.Storage.{milestone_at}
use orbit_chain_contracts.Release.{check_previous, release_checks, pay_primary}

-- The milestone before `i`, if there is one, is released.
abbrev pub PreviousReleased : {T : Type 0} → ℕ → State T → Type 0
PreviousReleased zero s = Unit
PreviousReleased (suc i) s =
    (m : MilestoneData) × (milestone_at s i ≡ some m) × (m.status ≡ released)

pub is_released-eq : (st : MilestoneStatus) → is_released st ≡ true → st ≡ released
is_released-eq released h = refl
is_released-eq locked h = absurd (ground arith)
is_released-eq unlocked h = absurd (ground arith)

pub is_unlocked-eq : (st : MilestoneStatus) → is_unlocked st ≡ true → st ≡ unlocked
is_unlocked-eq unlocked h = refl
is_unlocked-eq locked h = absurd (ground arith)
is_unlocked-eq released h = absurd (ground arith)

-- What a release needs of the state before it, and what it finds there.
pub record Releasable {T : Type 0} (i : ℕ) (s : State T) (c : CampaignData) (m : MilestoneData)
    : Type 0 where
  pub stored : s.campaign_data ≡ some c
  pub lock_free : s.reentrancy_lock ≡ none
  pub not_frozen : unwrap_or s.frozen false ≡ false
  pub found : milestone_at s i ≡ some m
  pub is_next : m.status ≡ unlocked
  pub previous : PreviousReleased i s

module _ {T : Type 0} (env : Env T) where
  check_previous_lem :
      (i : ℕ) (s : State T) {s' : State T}
      → check_previous env i s ≡ ok (tt, s')
      → PreviousReleased i s × (s' ≡ record s { ttl_calls = s'.ttl_calls })
  unfolding check_previous
  check_previous_lem zero s h = (tt, ground arith)
  check_previous_lem (suc i) s h = elim (Option-cases (milestone_at s i)) [
    | inl e ↦ absurd (ground arith)
    | inr (m, e) ↦ ((m, e, is_released-eq m.status (ground arith)), ground arith)
  ]

  pub release_checks_lem :
      (i : ℕ) (s : State T) {c : CampaignData} {m : MilestoneData} {s' : State T}
      → release_checks env i s ≡ ok ((c, m), s')
      → Releasable i s c m
        × (s' ≡ record s { reentrancy_lock = some true; ttl_calls = s'.ttl_calls })
  unfolding release_checks
  release_checks_lem zero s h = elim (Option-cases (milestone_at s 0)) [
    | inl e ↦ absurd (ground arith)
    | inr (m, e) ↦ (
      record {
        stored = ground arith;
        lock_free = ground arith;
        not_frozen = ground arith;
        found = ground arith;
        is_next = is_unlocked-eq _ (ground arith);
        previous = tt;
      },
      ground arith,
    )
  ]
  release_checks_lem (suc i) s h = elim (Option-cases (milestone_at s (suc i))) [
    | inl e ↦ absurd (ground arith)
    | inr (m, e) ↦ elim (Option-cases (milestone_at s i)) [
      | inl f ↦ absurd (ground arith)
      | inr (p, f) ↦ (
        record {
          stored = ground arith;
          lock_free = ground arith;
          not_frozen = ground arith;
          found = ground arith;
          is_next = is_unlocked-eq _ (ground arith);
          previous = (p, f, is_released-eq p.status (ground arith));
        },
        ground arith,
      )
    ]
  ]

  -- A payment to the recipient in full, or none where there is nothing to pay with or to pay.
  pub record PaidOut (token : Address) (amount : ℤ) (recipient : Address) (s s' : State T)
      : Type 0 where
    pub positive : ltb_ℤ (pos 0) amount ≡ true
    pub covered : ltb_ℤ (env.balance s.tokens token env.current_contract_address) amount ≡ false
    pub transferred :
        env.transfer s.tokens token env.current_contract_address recipient amount ≡ some s'.tokens
    pub frame : s' ≡ record s { tokens = s'.tokens; events = s'.events }

  abbrev pub Primary : ℤ → Address → Option Address → State T → State T → Type 0
  Primary amount recipient none s s' = s' ≡ s
  Primary amount recipient (some token) s s' =
      PaidOut token amount recipient s s'
      ⊎ (((leb_ℤ (env.balance s.tokens token env.current_contract_address) (pos 0) ≡ true)
            ⊎ (leb_ℤ amount (pos 0) ≡ true))
          × (s' ≡ s))

  pub min_covered :
      (amount balance : ℤ) → ltb_ℤ balance amount ≡ false → min_ℤ amount balance ≡ amount
  min_covered amount balance h = ground arith

  pub pay_primary_lem :
      (i : ℕ) (recipient : Address) (amount : ℤ) (asset : StellarAsset) (issuer : Option Address)
      (s : State T) {s' : State T}
      → pay_primary env i recipient amount asset issuer s ≡ ok (tt, s')
      → Primary amount recipient issuer s s'
  unfolding pay_primary
  pay_primary_lem i recipient amount asset none s h = ground arith
  pay_primary_lem i recipient amount asset (some token) s h =
      let balance = env.balance s.tokens token env.current_contract_address in
      elim (Bool-cases (ltb_ℤ (pos 0) balance)) [
        | inr empty ↦ inr (inl (ground arith), ground arith)
        | inl some_balance ↦ elim (Bool-cases (ltb_ℤ (pos 0) amount)) [
          | inr nothing ↦ inr (inr (ground arith), ground arith)
          | inl due ↦ elim (Bool-cases (ltb_ℤ balance amount)) [
            | inl short ↦ absurd (ground arith)
            | inr enough ↦
                let whole = min_covered amount balance enough in
                inl (record {
                  positive = due;
                  covered = enough;
                  transferred = ground arith;
                  frame = ground arith;
                })
          ]
        ]
      ]
