-- ===== src/Exec.antt =====
-- Actions of the contracts in crates/contracts: a call either succeeds with a value and a new state, or
-- fails, and then the host discards everything that it did. `E` is the contract's error type and `S`
-- its state.
use orbit_chain_contracts.Common.{
  Bool, true, false, Option, none, some, ◌≡◌, refl, ◌⊎◌, inl, inr, arith,
}

-- A contract error, or a trap of the host (a missing authorization, a failed call).
pub data Outcome (E A : Type 0) : Type 0 where
  ok : A → Outcome E A
  err : E → Outcome E A
  trap : Outcome E A

abbrev pub M : Type 0 → Type 0 → Type 0 → Type 0
M E S A = S → Outcome E (A × S)

module _ {E S : Type 0} where
  abbrev pub pure : {A : Type 0} → A → M E S A
  pure a s = ok (a, s)

  infixl 5 ◌>>=◌ ◌>>◌
  abbrev pub ◌>>=◌ : {A B : Type 0} → M E S A → (A → M E S B) → M E S B
  ◌>>=◌ m f s = elim (m s) [ ok (a, s') ↦ f a s' | err e ↦ err e | trap ↦ trap ]

  abbrev pub ◌>>◌ : {A B : Type 0} → M E S A → M E S B → M E S B
  m >> k = m >>= λ _. k

  abbrev pub gets : {A : Type 0} → (S → A) → M E S A
  gets f s = ok (f s, s)

  abbrev pub modify : (S → S) → M E S (Unit {0})
  modify f s = ok (tt, f s)

  -- `if c { panic_with_error(e) }`
  abbrev pub panic_if : Bool → E → M E S (Unit {0})
  panic_if true e s = err e
  panic_if false e s = ok (tt, s)

  -- `o.unwrap_or_else(|| panic_with_error(e))`
  abbrev pub or_panic : {A : Type 0} → Option A → E → M E S A
  or_panic none e s = err e
  or_panic (some a) e s = ok (a, s)

  -- `o.unwrap()`
  abbrev pub unwrap : {A : Type 0} → Option A → M E S A
  unwrap none s = trap
  unwrap (some a) s = ok (a, s)

  -- `addr.require_auth()`
  abbrev pub demand : Bool → M E S (Unit {0})
  demand true s = ok (tt, s)
  demand false s = trap

-- To split on what an action returned and keep the equation.
pub Outcome-cases :
    {E A : Type 0} (r : Outcome E A) → ((a : A) × (r ≡ ok a)) ⊎ ((e : E) × (r ≡ err e)) ⊎ (r ≡ trap)
Outcome-cases (ok a) = inl (a, refl)
Outcome-cases (err e) = inr (inl (e, refl))
Outcome-cases trap = inr (inr refl)

module _ {E S A B : Type 0} where
  -- A sequence that succeeds, split after its first action.
  pub record Split (m : M E S A) (f : A → M E S B) (s : S) (v : B × S) : Type 0 where
    pub value : A
    pub state : S
    pub first : m s ≡ ok (value, state)
    pub then_rest : f value state ≡ ok v

  pub >>=-eq-ok :
      (m : M E S A) (f : A → M E S B) (s : S) {v : B × S} → (m >>= f) s ≡ ok v → Split m f s v
  >>=-eq-ok m f s h = elim (Outcome-cases (m s)) [
    | inl ((a, s'), e) ↦ record { value = a; state = s'; first = e; then_rest = ground arith }
    | inr (inl (e, q)) ↦ absurd (ground arith)
    | inr (inr q) ↦ absurd (ground arith)
  ]
