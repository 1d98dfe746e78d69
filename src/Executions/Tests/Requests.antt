-- ===== src/Executions/Tests/Requests.antt =====
-- Runs of the create and delete handlers on small tables.
use composer.Base.{◌≡◌, refl, true, false, Option, none, some, [], ◌∷◌, Memᴰ, ok, err}
use composer.Executions.Store.{Row, Store, find_unique, update_many, run}
use composer.Executions.Handlers.{server_error, mark_canceled, cancel_execution}
use composer.Executions.Worker.{claim}
use composer.Executions.Deleting.Correct.{
  BulkOutcome, delete_executions_bulk_correct, DeleteOutcome, delete_execution_correct,
}
use composer.Executions.Creating.{
  http, WorkflowRow, find_by_idempotency_key, may_start, new_row, accepted, rejected, started,
  Request, create_execution,
}
use composer.Executions.Creating.Correct.{
  Unstarted, row_for, create_execution_idempotent, create_execution-rejected, create_then_claim,
}
use composer.Executions.Samples.{ann, store_of, fresh, ended_row, single-Distinct}

delete_executions_bulk_correct_example :
    BulkOutcome ann false ("e1" ∷ []) (store_of (ended_row ∷ []))
delete_executions_bulk_correct_example =
    delete_executions_bulk_correct ann false ("e1" ∷ []) (store_of (ended_row ∷ []))
      (single-Distinct ended_row)

delete_one : DeleteOutcome ann "e1" (ended_row ∷ []) (store_of (ended_row ∷ []))
delete_one = delete_execution_correct ann "e1" (ended_row ∷ []) (store_of (ended_row ∷ []))

abbrev request : Request
request = record {
  workflow_id = "w";
  idempotency_key = some "k";
  input_size = 2;
  fresh_id = "e2";
  fresh_thread_id = "t2";
}

abbrev public_workflow : Option WorkflowRow
public_workflow = some (record { is_public = true; user_id = none })

fresh_has_key : find_by_idempotency_key (fresh ∷ []) "w" "k" ≡ some fresh
unfolding find_by_idempotency_key
fresh_has_key = refl

create_execution_idempotent_example : Unstarted (store_of (fresh ∷ [])) (
    create_execution ann request false 100 public_workflow accepted 3 "" [] (store_of (fresh ∷ [])))
create_execution_idempotent_example =
    create_execution_idempotent ann request false 100 public_workflow accepted 3 "" []
      (store_of (fresh ∷ [])) "k" fresh refl fresh_has_key

abbrev cancels_new : Store → Store
cancels_new store = (cancel_execution ann "e2" 4 store.rows store).1

abbrev new_canceled : Row
unfolding mark_canceled new_row
new_canceled = mark_canceled 4 (row_for ann request 3)

create_fails :
    (create_execution ann request false 100 public_workflow
      (rejected cancels_new true)
      3
      "down"
      []
      (store_of [])).0
    ≡ err (http server_error)
unfolding create_execution
create_fails = refl

cancel_wins :
    find_unique (cancels_new (store_of (row_for ann request 3 ∷ []))).rows "e2" ≡ some new_canceled
unfolding cancel_execution find_unique update_many new_row mark_canceled
cancel_wins = refl

rejected_enqueue :
    find_unique
      (create_execution ann request false 100 public_workflow
        (rejected cancels_new true)
        3
        "down"
        []
        (store_of [])).1.rows
      "e2"
    ≡ some new_canceled
unfolding mark_canceled new_canceled
rejected_enqueue =
    create_execution-rejected ann request false 100 public_workflow cancels_new 3 "down" []
      (store_of []) new_canceled create_fails cancel_wins

create_starts :
    (create_execution ann request false 100 public_workflow accepted 3 "" [] (store_of [])).0
    ≡ ok (started (row_for ann request 3))
unfolding create_execution
create_starts = refl

create_then_claim_example :
    (may_start ann public_workflow ≡ true)
    × Memᴰ
        (record { execution_id = "e2"; kind = run })
        (create_execution ann request false 100 public_workflow accepted 3 "" []
          (store_of [])).1.tasks
    × ((claim true "e2" "worker" 4 4 10
          (create_execution ann request false 100 public_workflow accepted 3 "" []
            (store_of [])).1).0
        ≡ true)
unfolding find_unique
create_then_claim_example =
    create_then_claim ann request false 100 public_workflow 3 "" [] (store_of [])
      (row_for ann request 3) "worker" 4 4 10 refl create_starts
