-- ===== src/Executions/Worker/Claiming.antt =====
-- Leases: a claim wins the row for the time of its lease, and a canceled row is never claimed.
use composer.Base.{
  ◌↔◌, ◌<◌, ap, ℕ, ◌+◌, ◌≤◌, String, ◌≡◌, refl, Bool, true, false, Option, none, some, List,
  Distinct, arith, Bool-cases, Option-cases, ◌⊎◌, inl, inr, ok, ◌==◌, eq_iff, if◌then◌else◌, sym,
  subst, ◌∙◌,
}
use composer.Executions.Store.{is_active, Row, Store, find_unique, update}
use composer.Executions.Store.Queries.{
  row_ids, KeepsId, find_unique-update, find_unique-update_other,
}
use composer.Executions.Handlers.{Caller, mark_canceled, cancel_execution}
use composer.Executions.Handlers.Races.{cancel_execution_correct}
use composer.Executions.Worker.{
  lease_free, claimable, mark_claimed, claim_selected, selected, claim,
}

mark_claimed-KeepsId : (worker : String) (expires : ℕ) → KeepsId (mark_claimed worker expires)
unfolding mark_claimed
mark_claimed-KeepsId worker expires r = refl

-- A claim of a row that is there and claimable.
pub claim-free :
    (id worker : String) (now handler_now seconds : ℕ) (store : Store) (r : Row)
    → find_unique store.rows id ≡ some r
    → claimable now r ≡ true
    → claim true id worker now handler_now seconds store ≡ (
      true,
      record store { rows = update id (mark_claimed worker (handler_now + seconds)) store.rows },
    )
unfolding claim claim_selected selected
claim-free id worker now handler_now seconds store r found free = rw (found, free)

-- A claim of a row that is there and not claimable.
pub claim-taken :
    (unlocked : Bool) (id worker : String) (now handler_now seconds : ℕ) (store : Store) (r : Row)
    → find_unique store.rows id ≡ some r
    → claimable now r ≡ false
    → claim unlocked id worker now handler_now seconds store ≡ (false, store)
unfolding claim claim_selected selected
claim-taken true id worker now handler_now seconds store r found taken = rw (found, taken)
claim-taken false id worker now handler_now seconds store r found taken = refl

pub claim-absent :
    (unlocked : Bool) (id worker : String) (now handler_now seconds : ℕ) (store : Store)
    → find_unique store.rows id ≡ none
    → claim unlocked id worker now handler_now seconds store ≡ (false, store)
unfolding claim claim_selected selected
claim-absent true id worker now handler_now seconds store gone = rw gone
claim-absent false id worker now handler_now seconds store gone = refl

pub claim-locked :
    (id worker : String) (now handler_now seconds : ℕ) (store : Store)
    → claim false id worker now handler_now seconds store ≡ (false, store)
unfolding claim claim_selected selected
claim-locked id worker now handler_now seconds store = refl

-- The rows that a claim leaves: one row changed, or none.
abbrev pub with_row : (rows : List Row) → String → Row → (String → Option Row)
with_row rows id row other = if other == id then some row else find_unique rows other

find_unique-claimed :
    (id : String) (change : Row → Row) (rows : List Row) (r : Row)
    → KeepsId change
    → find_unique rows id ≡ some r
    → (other : String)
    → find_unique (update id change rows) other ≡ with_row rows id (change r) other
find_unique-claimed id change rows r keeps found other = elim (Bool-cases (other == id)) [
  | inl same ↦
      let own : other ≡ id = (eq_iff other id).0 same in
      rw same (
        subst (λ i. find_unique (update id change rows) i ≡ some (change r)) (sym own)
          (find_unique-update id change rows r keeps found))
  | inr different ↦ rw different (find_unique-update_other id other change rows keeps different)
]

-- A row that a worker may take: active, and without a lease or with one that has run out.
abbrev pub Claimable : ℕ → Row → Type 0
Claimable now r =
    (is_active r.status ≡ true)
    × ((r.lease_expires_at ≡ none)
        ⊎ ((expires : ℕ) × (r.lease_expires_at ≡ some expires) × (expires < now)))

pub claimable_iff : (now : ℕ) (r : Row) → (claimable now r ≡ true) ↔ Claimable now r
unfolding claimable lease_free
claimable_iff now r = elim (Option-cases r.lease_expires_at) [
  | inl free ↦ (λ h. (ground arith, inl free), λ h. ground (arith, h.0))
  | inr (expires, leased) ↦ (
    λ h. (ground arith, inr (expires, leased, ground arith)),
    λ (active, lease). elim lease [
      | inl free ↦ cc (free, leased)
      | inr (expires', leased', past) ↦ ground (arith, active, leased', past)
    ],
  )
]

-- A claim that wins, or one that does nothing.
abbrev pub ClaimOutcome : Bool → String → String → ℕ → ℕ → ℕ → Store → Type 0
ClaimOutcome unlocked id worker now handler_now seconds store =
    ((r : Row) × (unlocked ≡ true)
      × (find_unique store.rows id ≡ some r)
      × Claimable now r
      × ((claim unlocked id worker now handler_now seconds store).0 ≡ true)
      × ((other : String)
          → find_unique (claim unlocked id worker now handler_now seconds store).1.rows other
            ≡ with_row store.rows id (mark_claimed worker (handler_now + seconds) r) other))
    ⊎ (((unlocked ≡ false)
          ⊎ (find_unique store.rows id ≡ none)
          ⊎ ((r : Row) × (find_unique store.rows id ≡ some r) × (¬ Claimable now r)))
        × (claim unlocked id worker now handler_now seconds store ≡ (false, store)))

-- A claim succeeds exactly on an unlocked row that is there, active and without a lease in force; it
-- leaves the row running under the worker's lease with one more delivery counted and every other row
-- alone, and a claim that does not succeed changes nothing.
pub claim_correct :
    (unlocked : Bool) (id worker : String) (now handler_now seconds : ℕ) (store : Store)
    → ClaimOutcome unlocked id worker now handler_now seconds store
claim_correct false id worker now handler_now seconds store =
    inr (inl refl, claim-locked id worker now handler_now seconds store)
claim_correct true id worker now handler_now seconds store =
    elim (Option-cases (find_unique store.rows id)) [
      | inl gone ↦
          inr (inr (inl gone), claim-absent true id worker now handler_now seconds store gone)
      | inr (r, found) ↦ elim (Bool-cases (claimable now r)) [
        | inr taken ↦ inr (
          inr (inr (r, found, λ (c : Claimable now r). cc ((claimable_iff now r).1 c, taken))),
          claim-taken true id worker now handler_now seconds store r found taken,
        )
        | inl free ↦
            let won = claim-free id worker now handler_now seconds store r found free in
            let mark = mark_claimed worker (handler_now + seconds) in
            let keeps = mark_claimed-KeepsId worker (handler_now + seconds) in
            inl (
              r,
              refl,
              found,
              (claimable_iff now r).0 free,
              ap (λ (a : Bool × Store). a.0) won,
              λ other.
                  ap (λ (a : Bool × Store). find_unique a.1.rows other) won
                  ∙ find_unique-claimed id mark store.rows r keeps found other,
            )
      ]
    ]

-- A claim of a row that is there and claimable succeeds.
pub claim_wins :
    (id worker : String) (now handler_now seconds : ℕ) (store : Store) (r : Row)
    → find_unique store.rows id ≡ some r
    → claimable now r ≡ true
    → (claim true id worker now handler_now seconds store).0 ≡ true
claim_wins id worker now handler_now seconds store r found free =
    ap (λ (a : Bool × Store). a.0) (claim-free id worker now handler_now seconds store r found free)

lease_holds :
    (worker : String) (now expires : ℕ) (r : Row)
    → now ≤ expires
    → claimable now (mark_claimed worker expires r) ≡ false
unfolding claimable mark_claimed lease_free
lease_holds worker now expires r h = ground arith

-- Directly after a claim that succeeds, on the database as it left it, a second claim of the row that tests
-- the lease at a time until which the lease is in force fails and changes nothing. A resume request or a
-- sweep that clears the lease in between is not covered.
pub claim_excludes :
    (unlocked unlocked' : Bool) (id worker worker' : String)
    (now now' handler_now handler_now' seconds seconds' : ℕ) (store : Store)
    → (claim unlocked id worker now handler_now seconds store).0 ≡ true
    → now' ≤ handler_now + seconds
    → claim unlocked' id worker' now' handler_now' seconds'
        (claim unlocked id worker now handler_now seconds store).1
      ≡ (false, (claim unlocked id worker now handler_now seconds store).1)
claim_excludes unlocked unlocked' id worker worker' now now' handler_now handler_now' seconds
      seconds' store won early =
    elim (claim_correct unlocked id worker now handler_now seconds store) [
      | inr (free, lost) ↦ cc (won, lost)
      | inl (r, unlocked_row, found, free, taken, left) ↦
          claim-taken unlocked' id worker' now' handler_now' seconds' _
            (mark_claimed worker (handler_now + seconds) r)
            (left id ∙ ground (arith, (eq_iff id id).1 refl))
            (lease_holds worker now' (handler_now + seconds) r early)
    ]

ended-not_claimable : (now now' : ℕ) (r : Row) → claimable now (mark_canceled now' r) ≡ false
unfolding claimable mark_canceled
ended-not_claimable now now' r = refl

-- No worker claims an execution that a cancel request has won.
pub cancel_then_claim :
    (caller : Caller) (unlocked : Bool) (id worker : String) (at now handler_now seconds : ℕ)
    (seen : List Row) (store : Store)
    → Distinct (row_ids store.rows)
    → (cancel_execution caller id at seen store).0 ≡ ok tt
    → claim unlocked id worker now handler_now seconds (cancel_execution caller id at seen store).1
      ≡ (false, (cancel_execution caller id at seen store).1)
cancel_then_claim caller unlocked id worker at now handler_now seconds seen store d h =
    let (s, read, may, r, found, active, left) =
      cancel_execution_correct caller id at seen store d h in
    claim-taken unlocked id worker now handler_now seconds _ (mark_canceled at r) left
      (ended-not_claimable now at r)
