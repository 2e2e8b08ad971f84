-- ===== src/Host/Inversion.antt =====
-- What a successful sequence of actions did: its parts succeeded one after the other.
use orbit_chain_contracts.Common.{◌⊎◌, inl, inr, ◌≡◌, refl, sym, ◌∙◌, arith}
use orbit_chain_contracts.Host.{Failure, State, Result, ok, err, M, ◌>>=◌}

-- To split on what an action returned and keep the equation.
pub Result-cases :
    {T A : Type 0} (r : Result (A × State T))
    → ((a : A) × (s : State T) × (r ≡ ok (a, s))) ⊎ ((e : Failure) × (r ≡ err e))
Result-cases (ok (a, s)) = inl (a, s, refl)
Result-cases (err e) = inr (e, refl)

module _ {T A B : Type 0} where
  -- A sequence that succeeds, split after its first action.
  pub record Split (m : M T A) (f : A → M T B) (s : State T) (v : B × State T) : Type 0 where
    pub value : A
    pub state : State T
    pub first : m s ≡ ok (value, state)
    pub then_rest : f value state ≡ ok v

  continue : Result (A × State T) → (A → M T B) → Result (B × State T)
  continue (ok (a, s)) f = f a s
  continue (err e) f = err e

  continue-ok :
      (r : Result (A × State T)) (f : A → M T B) {v : B × State T}
      → continue r f ≡ ok v
      → (a : A) × (s : State T) × (r ≡ ok (a, s)) × (f a s ≡ ok v)
  unfolding continue
  continue-ok (ok (a, s)) f h = (a, s, refl, h)
  continue-ok (err e) f h = cc

  >>=-eq-continue : (m : M T A) (f : A → M T B) (s : State T) → (m >>= f) s ≡ continue (m s) f
  unfolding continue
  >>=-eq-continue m f s = ground arith

  pub >>=-eq-ok :
      (m : M T A) (f : A → M T B) (s : State T) {v : B × State T}
      → (m >>= f) s ≡ ok v
      → Split m f s v
  >>=-eq-ok m f s h =
      let (a, s', p, q) = continue-ok (m s) f (sym (>>=-eq-continue m f s) ∙ h) in
      record { value = a; state = s'; first = p; then_rest = q }
