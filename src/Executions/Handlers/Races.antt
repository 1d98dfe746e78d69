-- ===== src/Executions/Handlers/Races.antt =====
-- Racing requests: at most one transition of an execution wins.
use composer.Base.{
  ℕ, String, ◌≡◌, refl, ◌≢◌, true, false, ◌&&◌, Option, none, some, List, Distinct, arith,
  Bool-cases, inl, inr, ok, err, ◌==◌, sym, subst,
}
use composer.Executions.Store.{Row, Store, is_active, find_unique, update_many}
use composer.Executions.Store.Queries.{
  row_ids, KeepsId, row_ids-update_many, update_many-won, update_many-lost,
}
use composer.Executions.Handlers.{
  Caller, Answer, conflict, may_touch, settle, mark_canceled, cancel_row, cancel_seen,
  cancel_execution, mark_resumed,
}

mark_canceled-KeepsId : (now : ℕ) → KeepsId (mark_canceled now)
unfolding mark_canceled
mark_canceled-KeepsId now r = refl

mark_resumed-KeepsId : KeepsId mark_resumed
unfolding mark_resumed
mark_resumed-KeepsId r = refl

settle-eq-ok : (p : ℕ × List Row) (store : Store) → (settle p store).0 ≡ ok tt → p.0 ≡ 1
unfolding settle
settle-eq-ok p store h = ground arith

cancel_row-won :
    (id : String) (now : ℕ) (store : Store)
    → Distinct (row_ids store.rows)
    → (cancel_row id now store).0 ≡ ok tt
    → (r : Row) × (find_unique store.rows id ≡ some r)
      × (is_active r.status ≡ true)
      × (find_unique (cancel_row id now store).1.rows id ≡ some (mark_canceled now r))
unfolding cancel_row settle
cancel_row-won id now store d h =
    update_many-won id (λ r. is_active r.status) (mark_canceled now) store.rows d
      (mark_canceled-KeepsId now)
      (settle-eq-ok
        (update_many (λ r. r.id == id && is_active r.status) (mark_canceled now) store.rows) store
        h)

row_ids-cancel_row :
    (id : String) (now : ℕ) (store : Store)
    → row_ids (cancel_row id now store).1.rows ≡ row_ids store.rows
unfolding cancel_row
row_ids-cancel_row id now store =
    row_ids-update_many (λ r. r.id == id && is_active r.status) (mark_canceled now)
      (mark_canceled-KeepsId now) store.rows

cancel_row-lost :
    (id : String) (now : ℕ) (store : Store) (r : Row)
    → Distinct (row_ids store.rows)
    → find_unique store.rows id ≡ some r
    → is_active r.status ≡ false
    → (cancel_row id now store).0 ≡ err conflict
unfolding cancel_row
cancel_row-lost id now store r d found ended = ground (
  arith,
  update_many-lost id (λ x. is_active x.status) (mark_canceled now) store.rows r d found ended,
)

-- What a cancel request that succeeds has passed.
cancel_seen-eq-ok :
    (caller : Caller) (id : String) (now : ℕ) (seen : Option Row) (store : Store)
    → (cancel_seen caller id now seen store).0 ≡ ok tt
    → (s : Row) × (seen ≡ some s)
      × (may_touch caller s ≡ true)
      × (cancel_seen caller id now seen store ≡ cancel_row id now store)
unfolding cancel_seen
cancel_seen-eq-ok caller id now none store h = cc
cancel_seen-eq-ok caller id now (some s) store h = elim (Bool-cases (may_touch caller s)) [
  | inr denied ↦ absurd (cc (rw (denied, cancel_seen) at h))
  | inl may ↦ elim (Bool-cases (is_active s.status)) [
    | inr ended ↦ absurd (cc (rw (may, ended, cancel_seen) at h))
    | inl active ↦ (s, refl, may, rw (may, active))
  ]
]

-- The end of a cancel request that succeeds.
abbrev pub Canceled : Caller → String → ℕ → List Row → Store → Type 0
Canceled caller id now seen store =
    (s : Row) × (find_unique seen id ≡ some s)
    × (may_touch caller s ≡ true)
    × (r : Row) × (find_unique store.rows id ≡ some r)
    × (is_active r.status ≡ true)
    × (find_unique (cancel_execution caller id now seen store).1.rows id
        ≡ some (mark_canceled now r))

-- A cancel request that succeeds was allowed to its caller, found the row active at the moment of its
-- write whatever it had read before, and leaves it canceled.
pub cancel_execution_correct :
    (caller : Caller) (id : String) (now : ℕ) (seen : List Row) (store : Store)
    → Distinct (row_ids store.rows)
    → (cancel_execution caller id now seen store).0 ≡ ok tt
    → Canceled caller id now seen store
unfolding cancel_execution
cancel_execution_correct caller id now seen store d h =
    let (s, read, may, same) = cancel_seen-eq-ok caller id now (find_unique seen id) store h in
    let (r, found, active, left) =
      cancel_row-won id now store d (subst (λ (a : Answer). a.0 ≡ ok tt) same h) in
    (
      s,
      read,
      may,
      r,
      found,
      active,
      subst (λ (a : Answer). find_unique a.1.rows id ≡ some (mark_canceled now r)) (sym same) left,
    )

row_ids-cancel_execution :
    (caller : Caller) (id : String) (now : ℕ) (seen : List Row) (store : Store)
    → (cancel_execution caller id now seen store).0 ≡ ok tt
    → row_ids (cancel_execution caller id now seen store).1.rows ≡ row_ids store.rows
unfolding cancel_execution
row_ids-cancel_execution caller id now seen store h =
    let (s, read, may, same) = cancel_seen-eq-ok caller id now (find_unique seen id) store h in
    subst (λ (a : Answer). row_ids a.1.rows ≡ row_ids store.rows) (sym same)
      (row_ids-cancel_row id now store)

-- Of two cancel requests for one execution at most one succeeds, whatever each of them had read.
pub cancel_execution_once :
    (caller caller' : Caller) (id : String) (now now' : ℕ) (seen seen' : List Row) (store : Store)
    → Distinct (row_ids store.rows)
    → (cancel_execution caller id now seen store).0 ≡ ok tt
    → (cancel_execution caller' id now' seen' (cancel_execution caller id now seen store).1).0
      ≢ ok tt
unfolding mark_canceled
cancel_execution_once caller caller' id now now' seen seen' store d h again =
    let (s, read, may, r, found, active, left) =
      cancel_execution_correct caller id now seen store d h in
    let d' = subst Distinct (sym (row_ids-cancel_execution caller id now seen store h)) d in
    let (s', read', may', r', found', active', left') =
      cancel_execution_correct caller' id now' seen' (cancel_execution caller id now seen store).1
        d' again in
    let same : mark_canceled now r ≡ r' = cc (left, found') in
    let still : is_active (mark_canceled now r).status ≡ true =
      subst (λ (x : Row). is_active x.status ≡ true) (sym same) active' in
    cc still
