-- ===== src/Executions/Deleting.antt =====
-- `delete_execution` and `delete_executions_bulk` of src/api/executions.py. `seen` holds the rows that
-- the handler read, `store` the database that it deletes from.
pub mod Correct
use composer.Base.{
  ℕ, ◌-◌, String, Bool, true, false, not, ◌&&◌, ◌||◌, Option, none, some, List, [], ◌∷◌, map, keep,
  contains, ◌==◌, length, if◌then◌else◌, Result, ok, err,
}
use composer.Executions.Store.{is_active, Row, Approval, Store, find_unique}
use composer.Executions.Handlers.{
  HttpError, forbidden, not_found, conflict, unprocessable, Caller, may_touch, owns, Answer,
}

-- The four `delete_many` calls; the approvals go with their execution.
unfoldable pub purge : List String → List String → Store → Store
purge thread_ids ids store = record store {
  checkpoint_writes = keep (λ t. not (contains thread_ids t)) store.checkpoint_writes;
  checkpoints = keep (λ t. not (contains thread_ids t)) store.checkpoints;
  events = keep (λ e. not (contains ids e)) store.events;
  rows = keep (λ r. not (contains ids r.id)) store.rows;
  approvals = keep (λ a. not (contains ids a.execution_id)) store.approvals;
}

unfoldable pub delete_seen : Caller → String → Option Row → Store → Answer
unfolding purge
delete_seen caller id none store = (err not_found, store)
delete_seen caller id (some row) store =
    if not (may_touch caller row)
    then (err not_found, store)
    else if is_active row.status
    then (err conflict, store)
    else (ok tt, purge (row.thread_id ∷ []) (id ∷ []) store)

unfoldable pub delete_execution : Caller → String → List Row → Store → Answer
unfolding delete_seen
delete_execution caller id seen store = delete_seen caller id (find_unique seen id) store

pub record BulkDeleteResponse : Type 0 where
  pub deleted_count : ℕ
  pub skipped_count : ℕ

-- `find_many(where=where)` of the explicit-ids mode
unfoldable pub in_scope : Caller → List String → Row → Bool
in_scope caller ids row =
    contains ids row.id && (if caller.is_admin then true else owns caller.user_id row.user_id)

-- The rows that have ended go, and the others count as skipped.
unfoldable pub delete_rows : List String → List Row → Store → BulkDeleteResponse × Store
unfolding purge
delete_rows requested [] store =
    (record { deleted_count = 0; skipped_count = length requested }, store)
delete_rows requested (r ∷ rows) store = (
  record {
    deleted_count = length (r ∷ rows);
    skipped_count = length requested - length (r ∷ rows);
  },
  purge (map (λ x. x.thread_id) (r ∷ rows)) (map (λ x. x.id) (r ∷ rows)) store,
)

unfoldable pub delete_matching :
    List String → (Row → Bool) → List Row → Store → Result HttpError BulkDeleteResponse × Store
unfolding delete_rows
delete_matching requested matches seen store =
    let (response, after) =
      delete_rows requested (keep (λ r. not (is_active r.status)) (keep matches seen)) store in
    (ok response, after)

-- The explicit-ids mode, and the error when neither mode is asked for.
unfoldable pub delete_requested :
    Caller → List String → List Row → Store → Result HttpError BulkDeleteResponse × Store
unfolding delete_matching in_scope
delete_requested caller [] seen store = (err unprocessable, store)
delete_requested caller (i ∷ ids) seen store =
    delete_matching (i ∷ ids) (in_scope caller (i ∷ ids)) seen store

-- `requested` is `payload.execution_ids or []`.
unfoldable pub delete_executions_bulk :
    Caller → Bool → List String → List Row → Store → Result HttpError BulkDeleteResponse × Store
unfolding delete_requested
delete_executions_bulk caller all_in_scope requested seen store =
    if all_in_scope && not caller.is_admin
    then (err forbidden, store)
    else if all_in_scope
    then delete_matching requested (λ r. true) seen store
    else delete_requested caller requested seen store
