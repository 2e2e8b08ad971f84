-- ===== src/History/Keeps.antt =====
-- What every call of an entry point of campaign/src/lib.rs keeps, once a campaign is stored.
use orbit_chain_contracts.Common.{
  ℕ, ◌≤◌, ℤ, pos, ◌≤ℤ◌, ◌+ℤ◌, ◌≡◌, refl, Bool, true, false, Option, none, some, arith, leb_ℤ,
}
use orbit_chain_contracts.Types.{
  Address, CampaignData, CampaignStatus, DonorRecord, active, goal_reached, ended, cancelled,
  accepts_donations,
}
use orbit_chain_contracts.Host.{State}
use orbit_chain_contracts.Storage.{milestone_at}
use orbit_chain_contracts.Validation.{is_released_entry, validate_campaign_transition}
use orbit_chain_contracts.Contract.{raise_campaign, too_small}
use orbit_chain_contracts.Effects.Report.{report_value}
use orbit_chain_contracts.Effects.Donation.{with_donation}
use orbit_chain_contracts.Effects.Lifecycle.{Becomes, concluded}

-- The order in which a campaign goes through its statuses.
abbrev pub rank : CampaignStatus → ℕ
rank active = 0
rank goal_reached = 1
rank ended = 2
rank cancelled = 3

-- A campaign changes in four fields alone: what was raised never falls, and the status never goes
-- back.
pub record Evolves (c c' : CampaignData) : Type 0 where
  pub others : c' ≡ record c {
    raised_amount = c'.raised_amount;
    end_time = c'.end_time;
    status = c'.status;
    concluded_at_ledger = c'.concluded_at_ledger;
  }
  pub raised_grows : c.raised_amount ≤ℤ c'.raised_amount
  pub status_order : rank c.status ≤ rank c'.status

-- Whether a donor has claimed a refund.
abbrev pub has_claimed : Option DonorRecord → Bool
has_claimed none = false
has_claimed (some r) = r.refund_claimed

-- From the campaign `c`, stored in `s`, to the state `s'`.
pub record Keeps {T : Type 0} (c : CampaignData) (s s' : State T) : Type 0 where
  pub later : CampaignData
  pub stored : s'.campaign_data ≡ some later
  pub evolves : Evolves c later
  pub fresh :
      s.cached_report ≡ some (report_value s c) → s'.cached_report ≡ some (report_value s' later)
  pub lock_free : s.reentrancy_lock ≡ none → s'.reentrancy_lock ≡ none
  pub claims :
      (d : Address) → has_claimed (s.donor_data d) ≡ true → has_claimed (s'.donor_data d) ≡ true
  pub releases :
      (j : ℕ)
      → is_released_entry (milestone_at s j) ≡ true
      → is_released_entry (milestone_at s' j) ≡ true

pub Evolves-refl : (c : CampaignData) → Evolves c c
Evolves-refl c = record { others = refl; raised_grows = omega arith; status_order = omega arith }

Evolves-trans : (a b c : CampaignData) → Evolves a b → Evolves b c → Evolves a c
Evolves-trans a b c x y =
    let p = x.others in
    let q = y.others in
    let r = x.raised_grows in
    let r' = y.raised_grows in
    let o = x.status_order in
    let o' = y.status_order in
    record { others = ground arith; raised_grows = omega arith; status_order = omega arith }

grows : (a b : ℤ) → leb_ℤ b (pos 0) ≡ false → a ≤ℤ a +ℤ b
unfolding ◌+ℤ◌
grows a b h = ground arith

pub raise-Evolves :
    (c : CampaignData) (amount : ℤ)
    → too_small c amount ≡ false
    → accepts_donations c.status ≡ true
    → Evolves c (with_donation c amount)
unfolding raise_campaign
raise-Evolves c amount h o = record {
  others = refl;
  raised_grows = grows c.raised_amount amount (ground arith);
  status_order = ground arith;
}

pub conclude-Evolves :
    (c : CampaignData) (st : CampaignStatus) (n : ℕ)
    → validate_campaign_transition c.status st ≡ none
    → Evolves c (concluded c st n)
unfolding validate_campaign_transition
conclude-Evolves c st n h = record {
  others = refl;
  raised_grows = omega arith;
  status_order = ground arith;
}

module _ {T : Type 0} where
  pub Keeps-refl : (c : CampaignData) (s : State T) → s.campaign_data ≡ some c → Keeps c s s
  Keeps-refl c s h = record {
    later = c;
    stored = h;
    evolves = Evolves-refl c;
    fresh = λ e. e;
    lock_free = λ e. e;
    claims = λ d e. e;
    releases = λ j e. e;
  }

  pub Keeps-trans :
      (c : CampaignData) (s t u : State T) (x : Keeps c s t) → Keeps x.later t u → Keeps c s u
  Keeps-trans c s t u x y = record {
    later = y.later;
    stored = y.stored;
    evolves = Evolves-trans c x.later y.later x.evolves y.evolves;
    fresh = λ e. y.fresh (x.fresh e);
    lock_free = λ e. y.lock_free (x.lock_free e);
    claims = λ d e. y.claims d (x.claims d e);
    releases = λ j e. y.releases j (x.releases j e);
  }

  -- A change of lifetimes, events, the freeze flag, the blocked assets and the code.
  pub quiet-Keeps :
      (c : CampaignData) (s s' : State T)
      → s.campaign_data ≡ some c
      → s' ≡ record s {
        frozen = s'.frozen;
        blocked_asset = s'.blocked_asset;
        wasm_hash = s'.wasm_hash;
        events = s'.events;
        ttl_calls = s'.ttl_calls;
      }
      → Keeps c s s'
  unfolding report_value
  quiet-Keeps c s s' h f = record {
    later = c;
    stored = ground arith;
    evolves = Evolves-refl c;
    fresh = λ e. ground arith;
    lock_free = λ e. ground arith;
    claims = λ d e. ground arith;
    releases = λ j e. ground arith;
  }

  pub Becomes-Keeps :
      (c c' : CampaignData) (s s' : State T) → Evolves c c' → Becomes c' s s' → Keeps c s s'
  Becomes-Keeps c c' s s' ev b =
      let f = b.state_after in
      record {
        later = c';
        stored = ground arith;
        evolves = ev;
        fresh = λ e. b.report_after;
        lock_free = λ e. ground arith;
        claims = λ d e. ground arith;
        releases = λ j e. ground arith;
      }
