-- ===== src/Core/Effects.antt =====
-- What a call of crates/contracts/core/src/lib.rs that succeeds has checked and changed.
pub mod Withdrawals
use orbit_chain_contracts.Common.{
  ℕ, String, ℤ, pos, ◌+ℤ◌, ◌-ℤ◌, ◌<ℤ◌, ◌≤ℤ◌, ◌≡◌, ◌≢◌, refl, inl, inr, Bool, true, false, ◌&&◌,
  Option, none, some, List, [], ◌∷◌, ◌++◌, ◌==◌, arith, any, unwrap_or, update, update₂, leb_ℤ,
  ltb_ℤ, wrap_i128, wrapping_add_u64, str_eq, eq_iff, if◌then◌else◌, Bool-cases, Option-cases,
}
use orbit_chain_contracts.Types.{Address}
use orbit_chain_contracts.Exec.{Outcome, ok, ◌>>=◌, ◌>>◌, Split, >>=-eq-ok}
use orbit_chain_contracts.Core.Types.{
  Symbol, base_fee, pending, approved, submitted, WithdrawalRequest, Campaign, DonationRecord,
  CoreEvent, Env, State,
}
use orbit_chain_contracts.Core.Contract.{
  M, publish, ⊤, update_asset, net_of, history_of, donors_of, donation_record, donate_checks,
  donate_totals, add_donor, donate_record, count_tx, count_donation, count_withdrawal, donate,
  is_open, is_pending, is_approved, withdraw_checks, new_request, withdraw, check_admin,
  approve_withdrawal, submit_transaction, create_campaign, initialize,
}

-- The donors after a donation.
abbrev pub new_donors : State → ℕ → Address → ℕ → Option (List Address)
new_donors s id donor =
    if any (λ a. a == donor) (donors_of s id)
    then s.donors
    else update s.donors id (some (donors_of s id ++ donor ∷ []))

abbrev pub next : Option ℕ → Option ℕ
next n = some (wrapping_add_u64 (unwrap_or n 0) 1)

module _ (env : Env) (donor : Address) (id : ℕ) (amount : ℤ) (asset : Symbol) (memo : String)
    (s : State) where
  abbrev pub after_donate : Campaign → State
  after_donate c = record s {
    campaigns =
        update s.campaigns id (some (record c { raised = wrap_i128 (c.raised +ℤ net_of amount) }));
    asset_raised =
        update_asset s.asset_raised id asset
          (some (wrap_i128 (unwrap_or (s.asset_raised id asset) (pos 0) +ℤ net_of amount)));
    history =
        update s.history id (some (history_of s id ++ donation_record env donor amount asset ∷ []));
    donation = update₂ s.donation id donor (
        some (record {
          campaign_id = id;
          donor = donor;
          amount = amount;
          memo = memo;
          timestamp = env.timestamp;
        }));
    donors = new_donors s id donor;
    events = CoreEvent.donation_received donor id amount asset memo ∷ s.events;
    total_tx = next s.total_tx;
    total_donations = next s.total_donations;
  }

  -- What `donate` tests.
  pub record MayDonate (c : Campaign) : Type 0 where
    pub signed : env.authorized donor ≡ true
    pub named : asset ≢ ""
    pub enough : base_fee <ℤ amount
    pub stored : s.campaigns id ≡ some c
    pub active : c.active ≡ true

  donate_checks-MayDonate :
      (c : Campaign) (s' : State)
      → donate_checks env donor id amount asset s ≡ ok (c, s')
      → MayDonate c × (s' ≡ s)
  unfolding donate_checks
  donate_checks-MayDonate c s' h = elim (Option-cases (s.campaigns id)) [
    | inl e ↦ absurd (ground arith)
    | inr (d, e) ↦ (
      record {
        signed = ground arith;
        named = λ n. ground (arith, eq_iff asset "");
        enough = ground arith;
        stored = ground arith;
        active = ground arith;
      },
      ground arith,
    )
  ]

add_donor_eq :
    (id : ℕ) (donor : Address) (s : State)
    → add_donor id donor s ≡ ok (tt, record s { donors = new_donors s id donor })
unfolding add_donor
add_donor_eq id donor s = elim (Bool-cases (any (λ a. a == donor) (donors_of s id))) [
  | inl p ↦ ground arith
  | inr p ↦ ground arith
]

module _ (env : Env) (donor : Address) (id : ℕ) (amount : ℤ) (asset : Symbol) (memo : String)
    (s : State) where
  -- The state before the list of donors is read.
  abbrev with_record : Campaign → State
  with_record c = record s {
    campaigns =
        update s.campaigns id (some (record c { raised = wrap_i128 (c.raised +ℤ net_of amount) }));
    asset_raised =
        update_asset s.asset_raised id asset
          (some (wrap_i128 (unwrap_or (s.asset_raised id asset) (pos 0) +ℤ net_of amount)));
    history =
        update s.history id (some (history_of s id ++ donation_record env donor amount asset ∷ []));
    donation = update₂ s.donation id donor (
        some (record {
          campaign_id = id;
          donor = donor;
          amount = amount;
          memo = memo;
          timestamp = env.timestamp;
        }));
  }

  abbrev rest : Campaign → M ⊤
  rest c =
      donate_totals id amount asset c
      >> (donate_record env donor id amount asset memo
          >> (publish (CoreEvent.donation_received donor id amount asset memo)
              >> (count_tx >> count_donation)))

  donate_rest : (c : Campaign) → rest c s ≡ ok (tt, after_donate env donor id amount asset memo s c)
  unfolding donate_totals donate_record count_tx count_donation
  donate_rest c = ground (arith, add_donor_eq id donor (with_record c))

  pub donate-Becomes :
      (s' : State)
      → donate env donor id amount asset memo s ≡ ok (tt, s')
      → (c : Campaign) × MayDonate env donor id amount asset memo s c
        × (s' ≡ after_donate env donor id amount asset memo s c)
  unfolding donate
  donate-Becomes s' h =
      let p = >>=-eq-ok (donate_checks env donor id amount asset) rest s h in
      let (may, same) =
        donate_checks-MayDonate env donor id amount asset memo s p.value p.state p.first in
      (p.value, may, ground (arith, same, donate_rest p.value, p.then_rest))

module _ (env : Env) (creator : Address) (title : Symbol) (goal : ℤ) (deadline : ℕ)
    (s : State) where
  abbrev pub new_id : ℕ
  new_id = wrapping_add_u64 (unwrap_or s.count 0) 1

  abbrev pub after_create : State
  after_create = record s {
    campaigns = update s.campaigns new_id (
        some (record {
          id = new_id;
          creator = creator;
          title = title;
          goal = goal;
          raised = pos 0;
          deadline = deadline;
          active = true;
        }));
    count = some new_id;
    events = CoreEvent.campaign_created creator new_id ∷ s.events;
  }

  pub create_campaign-Becomes :
      (id : ℕ) (s' : State)
      → create_campaign env creator title goal deadline s ≡ ok (id, s')
      → (env.authorized creator ≡ true) × (id ≡ new_id) × (s' ≡ after_create)
  unfolding create_campaign
  create_campaign-Becomes id s' h = (ground arith, ground arith, ground arith)

pub initialize-Becomes :
    (env : Env) (admin : Address) (s s' : State)
    → initialize env admin s ≡ ok (tt, s')
    → (env.authorized admin ≡ true) × (s' ≡ record s { admin = some admin; count = some 0 })
unfolding initialize
initialize-Becomes env admin s s' h = (ground arith, ground arith)
