-- ===== src/Executions/Lifecycle/Effects/Requests.antt =====
-- The effects of the API handlers.
use composer.Base.{
  ℕ, String, ◌≡◌, refl, Bool, true, false, ◌&&◌, Option, none, some, List, [], ◌∷◌, ◌==◌, arith,
  Bool-cases, inl, inr,
}
use composer.Executions.Store.{Row, Store, TaskKind, is_active, is_waiting, is_queued, find_unique}
use composer.Executions.Handlers.{
  Caller, may_touch, mark_canceled, settle, cancel_row, cancel_seen, cancel_execution, mark_resumed,
  win_decision, enqueue_execution,
}
use composer.Executions.Creating.{fail_queued, mark_enqueue_failed}
use composer.Executions.Deleting.{
  purge, delete_seen, delete_execution, delete_rows, delete_matching, delete_requested,
  delete_executions_bulk,
}
use composer.Executions.Lifecycle.{run_again, cancel_it, fail_it}
use composer.Executions.Lifecycle.Effects.{Change, same, changed, Effect, changes, deletes}

pub cancel_row-Change :
    (id : String) (now : ℕ) (store : Store) → Change store.rows (cancel_row id now store).1.rows
unfolding cancel_row mark_canceled settle
cancel_row-Change id now store =
    changed (λ r. r.id == id && is_active r.status) (mark_canceled now) (λ r. refl)
      (λ r m h. cancel_it (ground (arith, h)) refl)

cancel_seen-Change :
    (caller : Caller) (id : String) (now : ℕ) (seen : Option Row) (store : Store)
    → Change store.rows (cancel_seen caller id now seen store).1.rows
unfolding cancel_seen
cancel_seen-Change caller id now none store = same
cancel_seen-Change caller id now (some s) store = elim (Bool-cases (may_touch caller s)) [
  | inr denied ↦ rw denied same
  | inl may ↦ elim (Bool-cases (is_active s.status)) [
    | inr ended ↦ rw (may, ended) same
    | inl active ↦ rw (may, active) (cancel_row-Change id now store)
  ]
]

pub cancel_execution-Change :
    (caller : Caller) (id : String) (now : ℕ) (seen : List Row) (store : Store)
    → Change store.rows (cancel_execution caller id now seen store).1.rows
unfolding cancel_execution
cancel_execution-Change caller id now seen store =
    cancel_seen-Change caller id now (find_unique seen id) store

pub enqueue_execution-rows :
    (accepted : Bool) (id : String) (kind : TaskKind) (store : Store)
    → (enqueue_execution accepted id kind store).1.rows ≡ store.rows
unfolding enqueue_execution
enqueue_execution-rows true id kind store = refl
enqueue_execution-rows false id kind store = refl

pub fail_queued-Change :
    (saved : Bool) (id : String) (now : ℕ) (why : String) (store : Store)
    → Change store.rows (fail_queued saved id now why store).rows
unfolding fail_queued mark_enqueue_failed
fail_queued-Change false id now why store = same
fail_queued-Change true id now why store =
    changed (λ r. r.id == id && is_queued r.status) (mark_enqueue_failed now why) (λ r. refl)
      (λ r m h. fail_it (ground (arith, h)) refl)

pub win_decision-Change :
    (id : String) (store : Store) → Change store.rows (win_decision id store).1.rows
unfolding win_decision mark_resumed settle
win_decision-Change id store =
    changed (λ r. r.id == id && is_waiting r.status) mark_resumed (λ r. refl)
      (λ r m h. run_again (ground (arith, h)) refl)

delete_seen-Effect :
    (caller : Caller) (id : String) (seen : Option Row) (store : Store)
    → Effect store.rows (delete_seen caller id seen store).1.rows
unfolding delete_seen purge
delete_seen-Effect caller id none store = changes same
delete_seen-Effect caller id (some s) store = elim (Bool-cases (may_touch caller s)) [
  | inr denied ↦ rw denied (changes same)
  | inl may ↦ elim (Bool-cases (is_active s.status)) [
    | inl active ↦ rw (may, active) (changes same)
    | inr ended ↦ rw (may, ended) (deletes _ refl)
  ]
]

pub delete_execution-Effect :
    (caller : Caller) (id : String) (seen : List Row) (store : Store)
    → Effect store.rows (delete_execution caller id seen store).1.rows
unfolding delete_execution
delete_execution-Effect caller id seen store =
    delete_seen-Effect caller id (find_unique seen id) store

delete_rows-Effect :
    (requested : List String) (rows : List Row) (store : Store)
    → Effect store.rows (delete_rows requested rows store).1.rows
unfolding delete_rows purge
delete_rows-Effect requested [] store = changes same
delete_rows-Effect requested (r ∷ rows) store = deletes _ refl

pub delete_bulk-Effect :
    (caller : Caller) (all_in_scope : Bool) (requested : List String) (seen : List Row)
    (store : Store)
    → Effect store.rows (delete_executions_bulk caller all_in_scope requested seen store).1.rows
unfolding delete_executions_bulk delete_requested delete_matching
delete_bulk-Effect caller true requested seen store = elim (Bool-cases caller.is_admin) [
  | inl admin ↦ rw admin (delete_rows-Effect requested _ store)
  | inr member ↦ rw member (changes same)
]
delete_bulk-Effect caller false [] seen store = changes same
delete_bulk-Effect caller false (i ∷ ids) seen store = delete_rows-Effect (i ∷ ids) _ store
