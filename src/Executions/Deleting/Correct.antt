-- ===== src/Executions/Deleting/Correct.antt =====
-- Deleting: an active execution stays, and nothing of a deleted one does.
use composer.Base.{
  ◌-◌, String, ◌≡◌, refl, Bool, true, false, not, ◌&&◌, ◌||◌, Option, none, some, List, [], ◌∷◌,
  keep, keep-all, contains, contains_iff, Memᴰ, Distinct, ◌==◌, eq_iff, length, eqb, all,
  Bool-cases, Option-cases, ◌⊎◌, inl, inr, sym, subst, ◌∙◌, ap, arith, if◌then◌else◌, Result, ok,
  err,
}
use composer.Executions.Store.{is_active, Row, Approval, Store, find_unique}
use composer.Executions.Store.Queries.{row_ids, find_unique-id}
use composer.Executions.Sweeper.Scan.{mem-row_ids, not-scanned, scanned, keep-keep}
use composer.Executions.Handlers.{
  HttpError, forbidden, not_found, conflict, unprocessable, Caller, may_touch, Answer,
}
use composer.Executions.Deleting.{
  purge, delete_seen, delete_execution, BulkDeleteResponse, in_scope, delete_rows, delete_matching,
  delete_requested, delete_executions_bulk,
}

-- `find_unique` on the rows that a deletion leaves.
find_unique-purged :
    (ids : List String) (rows : List Row) (id : String)
    → find_unique (keep (λ r. not (contains ids r.id)) rows) id
      ≡ (if contains ids id then none else find_unique rows id)
unfolding find_unique
find_unique-purged ids [] id = ground arith
find_unique-purged ids (r ∷ rows) id = elim (Bool-cases (r.id == id)) [
  | inl same ↦
      ground
        (arith, find_unique-purged ids rows id, ap (λ i. contains ids i) ((eq_iff r.id id).0 same))
  | inr other ↦ ground (arith, find_unique-purged ids rows id)
]

not-contains : (ids : List String) (id : String) → ¬ Memᴰ id ids → contains ids id ≡ false
not-contains ids id h = elim (Bool-cases (contains ids id)) [
  | inl hit ↦ absurd (h ((contains_iff ids id).0 hit))
  | inr miss ↦ miss
]

contains-kept :
    (test : Row → Bool) (rows : List Row) (id : String) (r : Row)
    → Distinct (row_ids rows)
    → find_unique rows id ≡ some r
    → contains (row_ids (keep test rows)) id ≡ test r
contains-kept test rows id r d found = elim (Bool-cases (test r)) [
  | inl hit ↦
      (contains_iff (row_ids (keep test rows)) id).1 (
        subst (λ i. Memᴰ i (row_ids (keep test rows))) (find_unique-id rows id r found)
          (mem-row_ids (keep test rows) r (scanned test rows id r found hit)))
      ∙ sym hit
  | inr miss ↦
      not-contains (row_ids (keep test rows)) id (not-scanned test rows id r d found miss)
      ∙ sym miss
]

delete_rows-rows :
    (requested : List String) (rows : List Row) (store : Store)
    → (delete_rows requested rows store).1.rows
      ≡ keep (λ r. not (contains (row_ids rows) r.id)) store.rows
unfolding delete_rows purge
delete_rows-rows requested [] store = sym (keep-all (λ r. true) store.rows (λ x m. refl))
delete_rows-rows requested (r ∷ rows) store = refl

delete_rows-counts :
    (requested : List String) (rows : List Row) (store : Store)
    → (delete_rows requested rows store).0
      ≡ record { deleted_count = length rows; skipped_count = length requested - length rows }
unfolding delete_rows
delete_rows-counts requested [] store = ground arith
delete_rows-counts requested (r ∷ rows) store = refl

-- The rows that a bulk deletion takes: asked for, in the caller's scope, and ended.
abbrev pub taken : (Row → Bool) → Row → Bool
taken matches r = matches r && not (is_active r.status)

abbrev pub untaken : (Row → Bool) → Option Row → Option Row
untaken matches none = none
untaken matches (some r) = if taken matches r then none else some r

-- What a bulk deletion does with the filter that it settled on.
abbrev pub Deleted :
    List String → (Row → Bool) → Store → Result HttpError BulkDeleteResponse × Store → Type 0
Deleted requested matches store answer =
    (answer.0
      ≡ ok (record {
        deleted_count = length (keep (taken matches) store.rows);
        skipped_count = length requested - length (keep (taken matches) store.rows);
      }))
    × ((id : String) → find_unique answer.1.rows id ≡ untaken matches (find_unique store.rows id))

purged-untaken :
    (matches : Row → Bool) (store : Store) (id : String)
    → Distinct (row_ids store.rows)
    → (if contains (row_ids (keep (taken matches) store.rows)) id
        then none
        else find_unique store.rows id)
      ≡ untaken matches (find_unique store.rows id)
purged-untaken matches store id d = elim (Option-cases (find_unique store.rows id)) [
  | inl gone ↦ rw gone (ground arith)
  | inr (r, found) ↦ rw (contains-kept (taken matches) store.rows id r d found, found)
]

delete_matching_correct :
    (requested : List String) (matches : Row → Bool) (store : Store)
    → Distinct (row_ids store.rows)
    → Deleted requested matches store (delete_matching requested matches store.rows store)
unfolding delete_matching
delete_matching_correct requested matches store d =
    let same = keep-keep matches (λ r. not (is_active r.status)) store.rows in
    (
      rw (same, delete_rows-counts requested (keep (taken matches) store.rows) store),
      λ id.
          ap (λ rows. find_unique (delete_rows requested rows store).1.rows id) same
          ∙ ap (λ rows. find_unique rows id)
              (delete_rows-rows requested (keep (taken matches) store.rows) store)
          ∙ find_unique-purged (row_ids (keep (taken matches) store.rows)) store.rows id
          ∙ purged-untaken matches store id d,
    )

-- The filter of the request: every row for `allInScope`, and otherwise the requested ones in scope.
abbrev pub asked : Caller → Bool → List String → Row → Bool
asked caller true requested row = true
asked caller false requested row = in_scope caller requested row

-- The ends of a bulk deletion.
abbrev pub BulkOutcome : Caller → Bool → List String → Store → Type 0
BulkOutcome caller all_in_scope requested store =
    ((all_in_scope ≡ true)
      × (caller.is_admin ≡ false)
      × (delete_executions_bulk caller all_in_scope requested store.rows store
          ≡ (err forbidden, store)))
    ⊎ ((all_in_scope ≡ false)
        × (requested ≡ [])
        × (delete_executions_bulk caller all_in_scope requested store.rows store
            ≡ (err unprocessable, store)))
    ⊎ (((not all_in_scope || caller.is_admin) ≡ true)
        × ((all_in_scope || not (eqb (length requested) 0)) ≡ true)
        × Deleted requested (asked caller all_in_scope requested) store
            (delete_executions_bulk caller all_in_scope requested store.rows store))

-- A bulk deletion with no other request between its statements fails without touching the database, or
-- deletes exactly the rows that it is asked for, that are in the caller's scope and that have ended. It
-- counts the deleted rows, and as skipped the number of requested ids, each repetition counted, less the
-- deleted rows and not below 0. It fails exactly if all rows are asked for by a caller who is no admin, or
-- if nothing is asked for.
pub delete_executions_bulk_correct :
    (caller : Caller) (all_in_scope : Bool) (requested : List String) (store : Store)
    → Distinct (row_ids store.rows)
    → BulkOutcome caller all_in_scope requested store
unfolding delete_executions_bulk delete_requested
delete_executions_bulk_correct caller true requested store d = elim (Bool-cases caller.is_admin) [
  | inl admin ↦
      inr (inr (admin, refl, rw admin (delete_matching_correct requested (λ r. true) store d)))
  | inr member ↦ inl (refl, member, rw member)
]
delete_executions_bulk_correct caller false [] store d = inr (inl (refl, refl, refl))
delete_executions_bulk_correct caller false (i ∷ ids) store d = inr (
    inr (refl, ground arith, delete_matching_correct (i ∷ ids) (in_scope caller (i ∷ ids)) store d))

-- Nothing of an execution is left: neither its row nor its approvals, events and checkpoints.
abbrev pub Gone : String → String → Store → Type 0
Gone id thread_id store =
    (find_unique store.rows id ≡ none)
    × (all (λ a. not (id == a.execution_id)) store.approvals ≡ true)
    × (all (λ e. not (id == e)) store.events ≡ true)
    × (all (λ t. not (thread_id == t)) store.checkpoints ≡ true)
    × (all (λ t. not (thread_id == t)) store.checkpoint_writes ≡ true)

all-keep :
    {A : Type 0} (id : String) (name : A → String) (xs : List A)
    → all (λ x. not (id == name x)) (keep (λ x. not (contains (id ∷ []) (name x))) xs) ≡ true
all-keep id name [] = refl
all-keep id name (x ∷ xs) = ground (arith, all-keep id name xs)

purge-Gone :
    (id thread_id : String) (store : Store)
    → Gone id thread_id (purge (thread_id ∷ []) (id ∷ []) store)
unfolding purge
purge-Gone id thread_id store = (
  find_unique-purged (id ∷ []) store.rows id ∙ ground (arith, (eq_iff id id).1 refl),
  all-keep id (λ (a : Approval). a.execution_id) store.approvals,
  all-keep id (λ e. e) store.events,
  all-keep thread_id (λ t. t) store.checkpoints,
  all-keep thread_id (λ t. t) store.checkpoint_writes,
)

purge-rows :
    (id thread_id other : String) (store : Store)
    → find_unique (purge (thread_id ∷ []) (id ∷ []) store).rows other
      ≡ (if id == other then none else find_unique store.rows other)
unfolding purge
purge-rows id thread_id other store = find_unique-purged (id ∷ []) store.rows other ∙ ground arith

-- The ends of a deletion.
abbrev pub DeleteOutcome : Caller → String → List Row → Store → Type 0
DeleteOutcome caller id seen store =
    ((e : HttpError) × (delete_execution caller id seen store ≡ (err e, store)))
    ⊎ ((s : Row) × (find_unique seen id ≡ some s)
        × (may_touch caller s ≡ true)
        × (is_active s.status ≡ false)
        × ((delete_execution caller id seen store).0 ≡ ok tt)
        × Gone id s.thread_id (delete_execution caller id seen store).1
        × ((other : String)
            → find_unique (delete_execution caller id seen store).1.rows other
              ≡ (if id == other then none else find_unique store.rows other)))

-- A deletion is refused and changes nothing, or it was allowed to its caller, found the execution
-- ended when it read it, leaves nothing of it, and keeps the rows of all others.
pub delete_execution_correct :
    (caller : Caller) (id : String) (seen : List Row) (store : Store)
    → DeleteOutcome caller id seen store
unfolding delete_execution delete_seen
delete_execution_correct caller id seen store = elim (Option-cases (find_unique seen id)) [
  | inl gone ↦ inl (not_found, rw gone)
  | inr (s, read) ↦ elim (Bool-cases (may_touch caller s)) [
    | inr denied ↦ inl (not_found, rw (read, denied))
    | inl may ↦ elim (Bool-cases (is_active s.status)) [
      | inl active ↦ inl (conflict, rw (read, may, active))
      | inr ended ↦
          let passed : delete_execution caller id seen store
              ≡ (ok tt, purge (s.thread_id ∷ []) (id ∷ []) store) =
            rw (read, may, ended) in
          inr (
            s,
            read,
            may,
            ended,
            ap (λ (a : Answer). a.0) passed,
            subst (λ (a : Answer). Gone id s.thread_id a.1) (sym passed)
                (purge-Gone id s.thread_id store),
            λ other.
                ap (λ (a : Answer). find_unique a.1.rows other) passed
                ∙ purge-rows id s.thread_id other store,
          )
    ]
  ]
]
