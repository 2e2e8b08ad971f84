-- ===== src/Math/Wrap.antt =====
-- The wrap-around of 128-bit integers commutes with sums: wrapping once at the end is enough.
use native.Mathlib.Nat.{div-add-mod, mod-lt}
use orbit_chain_contracts.Common.{
  ℕ, suc, ◌+◌, ◌*◌, ◌-◌, ◌%◌, ◌/◌, ◌≤◌, ◌<◌, ℤ, pos, negsuc, pos_part, neg_part, i128_bound, ◌≡◌,
  ◌∙◌, wrap_i128, ◌+ℤ◌, ◌-ℤ◌, +ℤ_parts, -ℤ_parts, arith, ltb, if◌then◌else◌, Bool-cases, inl, inr,
}

-- 2 ^ 128
abbrev modulus : ℕ
modulus = i128_bound + i128_bound

record Same (a b : ℤ) : Type 0 where
  left : ℕ
  right : ℕ
  agree : pos_part a + neg_part b + modulus * left ≡ pos_part b + neg_part a + modulus * right

Same-sym : (a b : ℤ) → Same a b → Same b a
Same-sym a b h = record { left = h.right; right = h.left; agree = omega (arith, h.agree) }

Same-trans : (a b c : ℤ) → Same a b → Same b c → Same a c
Same-trans a b c h k = record {
  left = h.left + k.left;
  right = h.right + k.right;
  agree = omega (arith, h.agree, k.agree);
}

abbrev signed : ℕ → ℤ
signed r = if ltb r i128_bound then pos r else negsuc (modulus - r - 1)

abbrev offset : ℤ → ℕ
offset a = pos_part a + modulus * (neg_part a) - neg_part a

signed-Same : (a : ℤ) (r q : ℕ) → r < modulus → modulus * q + r ≡ offset a → Same (signed r) a
signed-Same a r q h e = elim (Bool-cases (ltb r i128_bound)) [
  | inl p ↦ record { left = q; right = neg_part a; agree = ground arith }
  | inr p ↦ record { left = suc q; right = neg_part a; agree = ground arith }
]

signed_range :
    (r : ℕ) → r < modulus → (pos_part (signed r) < i128_bound) × (neg_part (signed r) ≤ i128_bound)
signed_range r h = ground arith

wrap-Same : (a : ℤ) → Same (wrap_i128 a) a
unfolding wrap_i128
wrap-Same a =
    signed-Same a (offset a % modulus) (offset a / modulus) (grind (arith, mod-lt))
      (grind (arith, div-add-mod))

wrap_range : (a : ℤ) → (pos_part (wrap_i128 a) < i128_bound) × (neg_part (wrap_i128 a) ≤ i128_bound)
unfolding wrap_i128
wrap_range a = signed_range (offset a % modulus) (grind (arith, mod-lt))

Same-eq :
    (a b : ℤ)
    → (pos_part a < i128_bound) × (neg_part a ≤ i128_bound)
    → (pos_part b < i128_bound) × (neg_part b ≤ i128_bound)
    → Same a b
    → a ≡ b
Same-eq a b h k s = let e = s.agree in ground arith

plus-Same : (a b c : ℤ) → Same a b → Same (a +ℤ c) (b +ℤ c)
plus-Same a b c h = record {
  left = h.left;
  right = h.right;
  agree = omega (arith, h.agree, +ℤ_parts a c, +ℤ_parts b c);
}

plus-Same_right : (a b c : ℤ) → Same b c → Same (a +ℤ b) (a +ℤ c)
plus-Same_right a b c h = record {
  left = h.left;
  right = h.right;
  agree = omega (arith, h.agree, +ℤ_parts a b, +ℤ_parts a c);
}

minus-Same : (a b c : ℤ) → Same a b → Same (a -ℤ c) (b -ℤ c)
minus-Same a b c h = record {
  left = h.left;
  right = h.right;
  agree = omega (arith, h.agree, -ℤ_parts a c, -ℤ_parts b c);
}

wrap_eq : (a b : ℤ) → Same a b → wrap_i128 a ≡ wrap_i128 b
wrap_eq a b h = Same-eq (wrap_i128 a) (wrap_i128 b) (wrap_range a) (wrap_range b) (
    Same-trans (wrap_i128 a) a (wrap_i128 b) (wrap-Same a)
      (Same-trans a b (wrap_i128 b) h (Same-sym (wrap_i128 b) b (wrap-Same b))))

pub wrap_add : (a b : ℤ) → wrap_i128 (wrap_i128 a +ℤ b) ≡ wrap_i128 (a +ℤ b)
wrap_add a b = wrap_eq (wrap_i128 a +ℤ b) (a +ℤ b) (plus-Same (wrap_i128 a) a b (wrap-Same a))

pub wrap_sub : (a b : ℤ) → wrap_i128 (wrap_i128 a -ℤ b) ≡ wrap_i128 (a -ℤ b)
wrap_sub a b = wrap_eq (wrap_i128 a -ℤ b) (a -ℤ b) (minus-Same (wrap_i128 a) a b (wrap-Same a))

pub wrap_add_right : (a b : ℤ) → wrap_i128 (a +ℤ wrap_i128 b) ≡ wrap_i128 (a +ℤ b)
wrap_add_right a b =
    wrap_eq (a +ℤ wrap_i128 b) (a +ℤ b) (plus-Same_right a (wrap_i128 b) b (wrap-Same b))

pub wrap_sum : (a b : ℤ) → wrap_i128 (wrap_i128 a +ℤ wrap_i128 b) ≡ wrap_i128 (a +ℤ b)
wrap_sum a b = wrap_add a (wrap_i128 b) ∙ wrap_add_right a b
