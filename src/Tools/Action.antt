-- ===== src/Tools/Action.antt =====
-- Calls of the tools that can fail: unlike a contract call, one that fails keeps what it did so far.
use orbit_chain_contracts.Common.{Bool, true, false, Option, none, some, ◌≡◌, ◌⊎◌, refl, inl, inr}

-- `Result`
pub data Attempt (E A : Type 0) : Type 0 where
  ok : A → Attempt E A
  err : E → Attempt E A

pub Attempt-cases :
    {E A : Type 0} (r : Attempt E A) → ((a : A) × (r ≡ ok a)) ⊎ ((e : E) × (r ≡ err e))
Attempt-cases (ok a) = inl (a, refl)
Attempt-cases (err e) = inr (e, refl)

infixl 5 ◌then◌
-- `?`
abbrev pub ◌then◌ : {E A B : Type 0} → Attempt E A → (A → Attempt E B) → Attempt E B
ok a then f = f a
err e then f = err e

-- `map_err(f)`
abbrev pub map_err : {E F A : Type 0} → (E → F) → Attempt E A → Attempt F A
map_err f (ok a) = ok a
map_err f (err e) = err (f e)

abbrev pub Action : Type 0 → Type 0 → Type 0 → Type 0
Action E S A = S → Attempt E A × S

module _ {E S : Type 0} where
  abbrev pub pure : {A : Type 0} → A → Action E S A
  pure a s = (ok a, s)

  infixl 5 ◌>>=◌ ◌>>◌
  -- `?` on the first result
  abbrev pub ◌>>=◌ : {A B : Type 0} → Action E S A → (A → Action E S B) → Action E S B
  ◌>>=◌ m f s = let (r, s') = m s in elim r [ ok a ↦ f a s' | err e ↦ (err e, s') ]

  abbrev pub ◌>>◌ : {A B : Type 0} → Action E S A → Action E S B → Action E S B
  m >> k = m >>= λ _. k

  abbrev pub gets : {A : Type 0} → (S → A) → Action E S A
  gets f s = (ok (f s), s)

  abbrev pub modify : (S → S) → Action E S (Unit {0})
  modify f s = (ok tt, f s)

  -- `return Err(e)` if the test holds
  abbrev pub fail_if : Bool → E → Action E S (Unit {0})
  fail_if true e s = (err e, s)
  fail_if false e s = (ok tt, s)

  -- `o.ok_or(e)?`
  abbrev pub ok_or : {A : Type 0} → Option A → E → Action E S A
  ok_or none e s = (err e, s)
  ok_or (some a) e s = (ok a, s)
