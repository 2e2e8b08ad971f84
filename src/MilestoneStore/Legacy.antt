-- ===== src/MilestoneStore/Legacy.antt =====
-- The older layout: the loop that gathers the entries has enough rounds.
use native.Mathlib.Nat.{add-zero}
use orbit_chain_contracts.Common.{
  ℕ, zero, suc, ◌+◌, ◌<◌, ◌≤◌, ◌≡◌, ◌≢◌, refl, ◌∙◌, List, [], ◌∷◌, length, get_elem?, none, some,
  arith, ◌==◌, if◌then◌else◌, Option-cases, inl, inr, ap,
}
use orbit_chain_contracts.Types.{MilestoneData}
use orbit_chain_contracts.Storage.{lookup, legacy_from}

remove : ℕ → List (ℕ × MilestoneData) → List (ℕ × MilestoneData)
remove k [] = []
remove k ((j, d) ∷ m) = let rest = remove k m in if j == k then rest else (j, d) ∷ rest

lookup-remove :
    (k j : ℕ) (m : List (ℕ × MilestoneData)) → k ≢ j → lookup (remove k m) j ≡ lookup m j
unfolding remove
lookup-remove k j [] h = refl
lookup-remove k j ((i, d) ∷ m) h = ground (arith, lookup-remove k j m h)

length-remove-le : (k : ℕ) (m : List (ℕ × MilestoneData)) → length (remove k m) ≤ length m
unfolding remove
length-remove-le k [] = omega arith
length-remove-le k ((i, d) ∷ m) = ground (arith, length-remove-le k m)

length-remove-lt :
    (k : ℕ) (m : List (ℕ × MilestoneData)) (d : MilestoneData)
    → lookup m k ≡ some d
    → length (remove k m) < length m
unfolding remove
length-remove-lt k [] d h = cc
length-remove-lt k ((i, e) ∷ m) d h = ground (arith, length-remove-le k m, length-remove-lt k m d)

-- The loop from `i` on reads no entry below `i`.
legacy_from-remove :
    (f i k : ℕ) (m : List (ℕ × MilestoneData))
    → k < i
    → legacy_from f i (remove k m) ≡ legacy_from f i m
unfolding legacy_from
legacy_from-remove zero i k m h = refl
legacy_from-remove (suc f) i k m h =
    ground (arith, lookup-remove k i m, legacy_from-remove f (suc i) k m)

legacy_from_stop :
    (f i : ℕ) (m : List (ℕ × MilestoneData)) → lookup m i ≡ none → legacy_from (suc f) i m ≡ []
unfolding legacy_from
legacy_from_stop f i m h = rw (h, legacy_from)

legacy_from_step :
    (f i : ℕ) (m : List (ℕ × MilestoneData)) {d : MilestoneData}
    → lookup m i ≡ some d
    → legacy_from (suc f) i m ≡ d ∷ legacy_from f (suc i) m
unfolding legacy_from
legacy_from_step f i m h = rw (h, legacy_from)

shift : (i n : ℕ) → i + suc n ≡ suc i + n
shift i n = omega arith

-- With more rounds than there are entries, the loop ends at an index that has no entry.
pub legacy_from_complete :
    (f i : ℕ) (m : List (ℕ × MilestoneData))
    → length m < f
    → lookup m (i + length (legacy_from f i m)) ≡ none
legacy_from_complete zero i m h = absurd (omega arith)
legacy_from_complete (suc f) i m h = elim (Option-cases (lookup m i)) [
  | inl gone ↦ rw (legacy_from_stop f i m gone) (rw (add-zero i) gone)
  | inr (d, here) ↦
      let ih =
        legacy_from_complete f (suc i) (remove i m) (omega (arith, length-remove-lt i m d here)) in
      let ih' : lookup m (suc i + length (legacy_from f (suc i) m)) ≡ none =
        rw (← lookup-remove i (suc i + length (legacy_from f (suc i) m)) m (omega arith))
          (rw (← legacy_from-remove f (suc i) i m (omega arith)) ih) in
      rw (legacy_from_step f i m here) (rw (shift i (length (legacy_from f (suc i) m))) ih')
]

legacy_place :
    (f i j : ℕ) (m : List (ℕ × MilestoneData)) (d : MilestoneData)
    → lookup m i ≡ some d
    → j < length (legacy_from (suc f) i m)
    → ((k : ℕ)
        → k < length (legacy_from f (suc i) m)
        → (e : MilestoneData) × (get_elem? (legacy_from f (suc i) m) k ≡ some e)
          × (lookup m (suc i + k) ≡ some e))
    → (e : MilestoneData) × (get_elem? (legacy_from (suc f) i m) j ≡ some e)
      × (lookup m (i + j) ≡ some e)
legacy_place f i zero m d here h rest =
    (d, ap (λ l. get_elem? l 0) (legacy_from_step f i m here), rw (add-zero i) here)
legacy_place f i (suc j) m d here h rest =
    let step = legacy_from_step f i m here in
    let long = ap length step in
    let (e, at, found) = rest j (omega (arith, h, long)) in
    (e, ap (λ l. get_elem? l (suc j)) step ∙ at, rw (shift i j) found)

-- What the loop gathers are the entries of the indices from `i` on, in order.
pub get_elem?-legacy_from :
    (f i j : ℕ) (m : List (ℕ × MilestoneData))
    → j < length (legacy_from f i m)
    → (d : MilestoneData) × (get_elem? (legacy_from f i m) j ≡ some d) × (lookup m (i + j) ≡ some d)
unfolding legacy_from
get_elem?-legacy_from zero i j m h = absurd (omega (arith, h))
get_elem?-legacy_from (suc f) i j m h = elim (Option-cases (lookup m i)) [
  | inl gone ↦
      let none_left = ap length (legacy_from_stop f i m gone) in
      absurd (omega (arith, h, none_left))
  | inr (d, here) ↦
      legacy_place f i j m d here h (λ k less. get_elem?-legacy_from f (suc i) k m less)
]

-- An entry past the end of the loop does not change its result.
pub legacy_from-cons :
    (f i k : ℕ) (d : MilestoneData) (m : List (ℕ × MilestoneData))
    → i + length (legacy_from f i m) < k
    → legacy_from f i ((k, d) ∷ m) ≡ legacy_from f i m
unfolding legacy_from
legacy_from-cons zero i k d m h = refl
legacy_from-cons (suc f) i k d m h = ground (arith, legacy_from-cons f (suc i) k d m)

-- One more round changes nothing once the loop has ended.
pub legacy_from-suc :
    (f i : ℕ) (m : List (ℕ × MilestoneData))
    → lookup m (i + length (legacy_from f i m)) ≡ none
    → legacy_from (suc f) i m ≡ legacy_from f i m
unfolding legacy_from
legacy_from-suc zero i m h = legacy_from_stop zero i m (rw (add-zero i) at h)
legacy_from-suc (suc f) i m h = elim (Option-cases (lookup m i)) [
  | inl gone ↦ rw (legacy_from_stop (suc f) i m gone, legacy_from_stop f i m gone)
  | inr (d, here) ↦
      rw (legacy_from_step (suc f) i m here, legacy_from_step f i m here)
        (ap (λ (l : List MilestoneData). d ∷ l)
          (legacy_from-suc f (suc i) m (
            rw (← shift i (length (legacy_from f (suc i) m)))
              (rw (legacy_from_step f i m here) at h))))
]
