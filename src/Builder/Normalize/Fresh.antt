-- ===== src/Builder/Normalize/Fresh.antt =====
-- `_unique_id` ends: among more candidates than there are ids, one is free.
use composer.Base.{
  ℕ, zero, suc, ◌+◌, ◌≤◌, ◌<◌, String, ◌≡◌, refl, true, false, not, ◌&&◌, some, List, [], ◌∷◌,
  contains, keep, length, ◌==◌, eq_iff, Bool-cases, inl, inr, ◌∙◌, arith,
}
use composer.Builder.Normalize.{unique_id}

abbrev without : String → List String → List String
without id names = keep (λ n. not (n == id)) names

contains-without :
    (id asked : String) (names : List String)
    → contains (without id names) asked ≡ (not (id == asked) && contains names asked)
contains-without id asked [] = ground arith
contains-without id asked (n ∷ names) =
    ground (arith, contains-without id asked names, eq_iff n id, eq_iff n asked, eq_iff id asked)

length-without : (id : String) (names : List String) → length (without id names) ≤ length names
length-without id [] = omega arith
length-without id (n ∷ names) = ground (arith, length-without id names)

length-without_found :
    (id : String) (names : List String)
    → contains names id ≡ true
    → length (without id names) < length names
length-without_found id [] h = cc
length-without_found id (n ∷ names) h = elim (Bool-cases (n == id)) [
  | inl same ↦ rw same (let le = length-without id names in omega (arith, le))
  | inr other ↦
      rw other (let lt = length-without_found id names (ground arith) in omega (arith, lt))
]

-- Candidates that are different, from one on.
abbrev pub Different : (ℕ → String) → ℕ → ℕ → Type 0
Different candidates from limit =
    (j k : ℕ) → from ≤ j → j < limit → from ≤ k → k < limit → candidates j ≡ candidates k → j ≡ k

unique_id-same :
    (candidates : ℕ → String) (names others : List String) (fuel i : ℕ)
    → ((k : ℕ)
        → i ≤ k
        → k < i + fuel
        → contains names (candidates k) ≡ contains others (candidates k))
    → unique_id candidates names fuel i ≡ unique_id candidates others fuel i
unfolding unique_id
unique_id-same candidates names others zero i same = refl
unique_id-same candidates names others (suc fuel) i same =
    let now = same i (omega arith) (omega arith) in
    let rest =
      unique_id-same candidates names others fuel (suc i)
        (λ k le lt. same k (omega arith) (omega arith)) in
    cc (now, rest)

-- With more candidates than names, the loop comes to one that is no name.
pub unique_id-some :
    (candidates : ℕ → String) (names : List String) (fuel i : ℕ)
    → Different candidates i (i + fuel)
    → length names < fuel
    → (k : ℕ) × (i ≤ k)
      × (k < i + fuel)
      × (unique_id candidates names fuel i ≡ some (candidates k))
      × (contains names (candidates k) ≡ false)
unfolding unique_id
unique_id-some candidates names zero i different short = absurd (omega (arith, short))
unique_id-some candidates names (suc fuel) i different short =
    elim (Bool-cases (contains names (candidates i))) [
      | inr free ↦ (i, omega arith, omega arith, rw (free, unique_id) refl, free)
      | inl taken ↦
          let rest = without (candidates i) names in
          let shorter = length-without_found (candidates i) names taken in
          let (k, above, below, found, free) =
            unique_id-some candidates rest fuel (suc i)
              (λ j k a b c d. different j k (omega arith) (omega arith) (omega arith) (omega arith))
              (omega (arith, short, shorter)) in
          let apart = λ (j : ℕ) (a : suc i ≤ j) (b : j < suc i + fuel).
            let other : (candidates i == candidates j) ≡ false =
              elim (Bool-cases (candidates i == candidates j)) [
                | inr no_match ↦ no_match
                | inl same ↦
                    let e =
                      different i j (omega arith) (omega arith) (omega arith) (omega arith)
                        ((eq_iff (candidates i) (candidates j)).0 same) in
                    absurd (omega (arith, e))
              ] in
            let kept : contains names (candidates j) ≡ contains rest (candidates j) =
              ground (arith, contains-without (candidates i) (candidates j) names) in
            kept in
          (
            k,
            omega arith,
            omega arith,
            rw (taken, unique_id) (unique_id-same candidates names rest fuel (suc i) apart ∙ found),
            apart k above below ∙ free,
          )
    ]
