-- ===== src/Effects/Initialize.antt =====
-- `initialize` of campaign/src/lib.rs: what a call that returns has checked and stored.
use orbit_chain_contracts.Common.{
  ℕ, suc, ℤ, pos, ◌≡◌, refl, sym, ap, ◌∙◌, true, false, none, some, List, [], ◌∷◌, ◌++◌, length,
  arith, get_last?, is_empty, leb, ltb, leb_ℤ, ◌==◌, eqb_ℤ→eq, Option-cases, inl, inr,
  length-append,
}
use mathlib.Core.List.{append_assoc, append-nil}
use orbit_chain_contracts.Types.{Address, StellarAsset, CampaignData, MilestoneData, max_milestones}
use orbit_chain_contracts.Host.{Env, Event, State, Result, ⊤, ok}
use orbit_chain_contracts.Host.Inversion.{>>=-eq-ok}
use orbit_chain_contracts.Storage.{
  milestones, set_milestone, set_campaign, milestones_or_legacy, bump_persistent,
}
use orbit_chain_contracts.Validation.{is_ascending, all_codes_present}
use orbit_chain_contracts.Contract.{store_milestones, new_campaign, initialize_checks, initialize}
use orbit_chain_contracts.MilestoneStore.Access.{set_milestone-at_end, with_vector}
use orbit_chain_contracts.Effects.Report.{report_value, refresh_report_cache_lem, CacheOnly}
use orbit_chain_contracts.Effects.Steps.{write_lem}

-- The tests of the call, on its arguments and the state before it.
pub record Accepted {T : Type 0} (env : Env T) (creator : Address) (goal : ℤ) (end_time : ℕ)
    (assets : List StellarAsset) (ms : List MilestoneData) (s : State T) : Type 0 where
  pub authorized : env.authorized creator ≡ true
  pub is_new : s.campaign_data ≡ none
  pub goal_positive : leb_ℤ goal (pos 0) ≡ false
  pub ends_later : leb end_time env.timestamp ≡ false
  pub some_asset : is_empty assets ≡ false
  pub codes : all_codes_present assets ≡ true
  pub some_milestone : (length ms == 0) ≡ false
  pub few_milestones : ltb max_milestones (length ms) ≡ false
  pub ascending : is_ascending ms ≡ true
  pub last : (m : MilestoneData) × (get_last? ms ≡ some m) × (m.target_amount ≡ goal)

length-snoc : (v : List MilestoneData) (m : MilestoneData) → length (v ++ m ∷ []) ≡ suc (length v)
length-snoc v m = omega (arith, length-append v (m ∷ []))

module _ {T : Type 0} where
  abbrev pub MilestonesOnly : State T → State T → Type 0
  MilestonesOnly s s' = s' ≡ record s {
    milestones_vec = s'.milestones_vec;
    milestone_data = s'.milestone_data;
    ttl_calls = s'.ttl_calls;
  }

  MilestonesOnly-trans :
      (s t u : State T) → MilestonesOnly s t → MilestonesOnly t u → MilestonesOnly s u
  MilestonesOnly-trans s t u p q = ground arith

  store_milestones-MilestonesOnly :
      (i : ℕ) (ms : List MilestoneData) (s : State T) {s' : State T}
      → store_milestones i ms s ≡ ok (tt, s')
      → MilestonesOnly s s'
  unfolding store_milestones
  store_milestones-MilestonesOnly i [] s h = ground arith
  store_milestones-MilestonesOnly i (m ∷ ms) s {s'} h =
      let x = >>=-eq-ok (set_milestone i m) _ s h in
      let w = write_lem i m s x.first in
      MilestonesOnly-trans s x.state s' w.frame
        (store_milestones-MilestonesOnly (suc i) ms x.state x.then_rest)

  milestones-with_vector : (v : List MilestoneData) (s : State T) → milestones (with_vector v s) ≡ v
  unfolding milestones_or_legacy bump_persistent
  milestones-with_vector v s = refl

  -- The loop appends the milestones, in their order.
  store_milestones_lem :
      (i : ℕ) (ms : List MilestoneData) (s : State T) {s' : State T}
      → i ≡ length (milestones s)
      → store_milestones i ms s ≡ ok (tt, s')
      → milestones s' ≡ milestones s ++ ms
  unfolding store_milestones
  store_milestones_lem i [] s {s'} e h =
      let same : s' ≡ s = ground arith in
      ap (λ (t : State T). milestones t) same ∙ sym (append-nil (milestones s))
  store_milestones_lem i (m ∷ ms) s {s'} e h =
      let x = >>=-eq-ok (set_milestone i m) _ s h in
      let end = set_milestone-at_end i m s e in
      let same : x.state ≡ with_vector (milestones s ++ m ∷ []) s =
        state_eq (set_milestone i m s) x.state _ x.first end in
      let now =
        ap (λ (t : State T). milestones t) same
        ∙ milestones-with_vector (milestones s ++ m ∷ []) s in
      let long : suc i ≡ length (milestones x.state) =
        ap suc e ∙ (sym (length-snoc (milestones s) m) ∙ ap length (sym now)) in
      store_milestones_lem (suc i) ms x.state long x.then_rest
      ∙ (ap (λ l. l ++ ms) now ∙ append_assoc (milestones s) (m ∷ []) ms)
    where
      state_eq :
          (r : Result (⊤ × State T)) (a b : State T) → r ≡ ok (tt, a) → r ≡ ok (tt, b) → a ≡ b
      state_eq r a b e f = ground arith

module _ {T : Type 0} (env : Env T) (creator : Address) (goal : ℤ) (end_time : ℕ)
    (assets : List StellarAsset) (ms : List MilestoneData) where
  initialize_checks_lem :
      (s : State T) {s' : State T}
      → initialize_checks env creator goal end_time assets ms s ≡ ok (tt, s')
      → Accepted env creator goal end_time assets ms s
        × (s' ≡ record s { ttl_calls = s'.ttl_calls })
  unfolding initialize_checks
  initialize_checks_lem s h = elim (Option-cases (get_last? ms)) [
    | inl e ↦ absurd (ground arith)
    | inr (m, e) ↦ (
      record {
        authorized = ground arith;
        is_new = ground arith;
        goal_positive = ground arith;
        ends_later = ground arith;
        some_asset = ground arith;
        codes = ground arith;
        some_milestone = ground arith;
        few_milestones = ground arith;
        ascending = ground arith;
        last = (m, e, eqb_ℤ→eq m.target_amount goal (ground arith));
      },
      ground arith,
    )
  ]

  -- All that the call does to the state.
  pub record Initialized (min_donation : ℤ) (s s' : State T) : Type 0 where
    pub accepted : Accepted env creator goal end_time assets ms s
    pub report_after :
        s'.cached_report
        ≡ some (report_value s' (new_campaign env creator goal end_time assets ms min_donation))
    pub state_after : s' ≡ record s {
      campaign_data = some (new_campaign env creator goal end_time assets ms min_donation);
      milestones_vec = s'.milestones_vec;
      milestone_data = s'.milestone_data;
      cached_report = s'.cached_report;
      events = s'.events;
      ttl_calls = s'.ttl_calls;
    }
    pub milestones_after : s.milestones_vec ≡ none → s.milestone_data ≡ [] → milestones s' ≡ ms

  join_initialize :
      (c : CampaignData) (s s₁ s₂ s₃ t₃ s' : State T)
      → s₁ ≡ record s { ttl_calls = s₁.ttl_calls }
      → s₂ ≡ record s₁ { campaign_data = some c; ttl_calls = s₂.ttl_calls }
      → MilestonesOnly s₂ s₃
      → t₃ ≡ record s₃ { events = t₃.events }
      → (s'.cached_report ≡ some (report_value t₃ c)) × CacheOnly t₃ s'
      → (s'.cached_report ≡ some (report_value s' c))
        × (s' ≡ record s {
          campaign_data = some c;
          milestones_vec = s'.milestones_vec;
          milestone_data = s'.milestone_data;
          cached_report = s'.cached_report;
          events = s'.events;
          ttl_calls = s'.ttl_calls;
        })
        × (milestones s' ≡ milestones s₃)
        × (milestones s₂ ≡ milestones s)
  unfolding report_value
  join_initialize c s s₁ s₂ s₃ t₃ s' f₁ f₂ f₃ f₄ f₅ =
      (ground arith, ground arith, ground arith, ground arith)

  set_campaign_lem :
      (c : CampaignData) (s : State T) {s' : State T}
      → set_campaign c s ≡ ok (tt, s')
      → s' ≡ record s { campaign_data = some c; ttl_calls = s'.ttl_calls }
  unfolding set_campaign
  set_campaign_lem c s h = ground arith

  no_milestones :
      (s : State T) → s.milestones_vec ≡ none → s.milestone_data ≡ [] → milestones s ≡ []
  unfolding milestones_or_legacy
  no_milestones s v m = ground arith

  campaign_after :
      (c : CampaignData) (s₂ s₃ : State T)
      → s₂.campaign_data ≡ some c
      → MilestonesOnly s₂ s₃
      → s₃.campaign_data ≡ some c
  campaign_after c s₂ s₃ h f = ground arith

  pub initialize-Initialized :
      (min_donation : ℤ) (s : State T) {s' : State T}
      → initialize env creator goal end_time assets ms min_donation s ≡ ok (tt, s')
      → Initialized min_donation s s'
  unfolding initialize
  initialize-Initialized min_donation s {s'} h =
      let c = new_campaign env creator goal end_time assets ms min_donation in
      let x₁ = >>=-eq-ok (initialize_checks env creator goal end_time assets ms) _ s h in
      let (accepted, f₁) = initialize_checks_lem s x₁.first in
      let x₂ = >>=-eq-ok (set_campaign c) _ x₁.state x₁.then_rest in
      let f₂ = set_campaign_lem c x₁.state x₂.first in
      let x₃ = >>=-eq-ok (store_milestones 0 ms) _ x₂.state x₂.then_rest in
      let f₃ = store_milestones-MilestonesOnly 0 ms x₂.state x₃.first in
      let t₃ : State T = record (x₃.state) {
        events =
            Event.initialized (record {
              creator = creator;
              goal_amount = goal;
              end_time = end_time;
              asset_count = length assets;
              milestone_count = length ms;
              created_at_ledger = env.sequence;
            })
            ∷ x₃.state.events;
      } in
      let stored =
        campaign_after c x₂.state x₃.state (ap (λ (w : State T). w.campaign_data) f₂) f₃ in
      let (fresh, after, same_end, same_start) =
        join_initialize c s x₁.state x₂.state x₃.state t₃ s' f₁ f₂ f₃ refl
          (refresh_report_cache_lem t₃ c stored x₃.then_rest) in
      record {
        accepted = accepted;
        report_after = fresh;
        state_after = after;
        milestones_after = λ v m.
            let empty = same_start ∙ no_milestones s v m in
            same_end
            ∙ (store_milestones_lem 0 ms x₂.state (sym (ap length empty)) x₃.first
                ∙ ap (λ l. l ++ ms) empty);
      }
