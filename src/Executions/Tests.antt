-- ===== src/Executions/Tests.antt =====
-- Runs of the handlers, workers and sweeps on small tables.
mod Requests
use mathlib.Core.List.Memᴰ
use composer.Base.{
  ap, ℕ, String, ◌≡◌, refl, ◌≢◌, Bool, true, false, Option, none, some, List, [], ◌∷◌, Memᴰ,
  Distinct, arith, ◌⊎◌, ok, err, ◌==◌, eq_iff, if◌then◌else◌,
}
use composer.Value.{Value, text, empty, field}
use composer.State.{WorkflowStateDict}
use composer.Executions.Store.{
  Status, queued, running, waiting_approval, completed, Row, Store, find_unique, update_many, run,
  resume,
}
use composer.Executions.Store.Queries.{row_ids}
use composer.Executions.Handlers.{
  Caller, Answer, server_error, mark_canceled, cancel_execution, resume_execution,
}
use composer.Executions.Handlers.Races.{Canceled, cancel_execution_correct, cancel_execution_once}
use composer.Executions.Handlers.Recording.{Refused}
use composer.Executions.Handlers.Resuming.{Decided, resume_execution_correct, resume_execution_once}
use composer.Executions.Worker.{claim, finished, returned, run_claimed}
use composer.Executions.Worker.Claiming.{
  ClaimOutcome, claim_correct, claim_excludes, cancel_then_claim,
}
use composer.Executions.Worker.Ending.{CrashOutcome, crash_handler_correct, cancel_then_complete}
use composer.Executions.Sweeper.{is_overdue, sweep_expired_leases}
use composer.Executions.Sweeper.Leases.{recovery_task}
use composer.Executions.Sweeper.Recovery.{
  Lost, LeaseOutcome, sweep_expired_leases_correct, sweep_then_claim,
}
use composer.Executions.Sweeper.Deadlines.{
  StuckOutcome, sweep_stuck_executions_correct, OverdueOutcome, sweep_expired_approvals_correct,
}
use composer.Executions.Deleting.Correct.{
  BulkOutcome, delete_executions_bulk_correct, DeleteOutcome, delete_execution_correct,
}
use composer.Executions.Creating.{
  http, WorkflowRow, find_by_idempotency_key, may_start, new_row, accepted, rejected, started,
  Request, create_execution,
}
use composer.Executions.Creating.Correct.{
  Unstarted, row_for, create_execution_idempotent, create_execution-rejected, create_then_claim,
}
use composer.Executions.Samples.{
  ann, root, row_of, store_of, fresh, leased, paused_row, ended_row, single-Distinct, seen_leased,
}

cancel_ok : (cancel_execution ann "e1" 5 (fresh ∷ []) (store_of (fresh ∷ []))).0 ≡ ok tt
unfolding cancel_execution find_unique update_many
cancel_ok = refl

cancel_execution_correct_example : Canceled ann "e1" 5 (fresh ∷ []) (store_of (fresh ∷ []))
cancel_execution_correct_example =
    cancel_execution_correct ann "e1" 5 (fresh ∷ []) (store_of (fresh ∷ [])) (single-Distinct fresh)
      cancel_ok

cancel_twice :
    (cancel_execution root "e1" 6
      (fresh ∷ [])
      (cancel_execution ann "e1" 5 (fresh ∷ []) (store_of (fresh ∷ []))).1).0
    ≢ ok tt
cancel_twice =
    cancel_execution_once ann root "e1" 5 6 (fresh ∷ []) (fresh ∷ []) (store_of (fresh ∷ []))
      (single-Distinct fresh) cancel_ok

abbrev resumed : Answer
resumed =
    resume_execution ann "e1" "approved" false true (paused_row ∷ []) (store_of (paused_row ∷ []))

resume_writes : resumed.1.tasks ≡ record { execution_id = "e1"; kind = resume } ∷ []
unfolding resume_execution find_unique update_many
resume_writes = refl

resume_execution_correct_example :
    Refused (store_of (paused_row ∷ [])) resumed
    ⊎ Decided ann "e1" "approved" true
        (find_unique (paused_row ∷ []) "e1")
        (store_of (paused_row ∷ []))
        resumed
resume_execution_correct_example =
    resume_execution_correct ann "e1" "approved" false true (paused_row ∷ [])
      (store_of (paused_row ∷ [])) (single-Distinct paused_row)

resume_twice :
    Refused resumed.1 (resume_execution root "e1" "rejected" false true (paused_row ∷ []) resumed.1)
resume_twice =
    resume_execution_once ann root "e1" "approved" "rejected" false false true true
      (paused_row ∷ []) (paused_row ∷ []) (store_of (paused_row ∷ [])) (single-Distinct paused_row)
      (λ e. cc (ap (λ (s : Store). s.tasks) e, resume_writes))

claim_correct_example : ClaimOutcome true "e1" "worker" 0 0 10 (store_of (fresh ∷ []))
claim_correct_example = claim_correct true "e1" "worker" 0 0 10 (store_of (fresh ∷ []))

claim_ok : (claim true "e1" "worker" 0 0 10 (store_of (fresh ∷ []))).0 ≡ true
unfolding claim find_unique
claim_ok = refl

claim_excludes_example :
    claim true "e1" "other" 9 9 10 (claim true "e1" "worker" 0 0 10 (store_of (fresh ∷ []))).1
    ≡ (false, (claim true "e1" "worker" 0 0 10 (store_of (fresh ∷ []))).1)
claim_excludes_example =
    claim_excludes true true "e1" "worker" "other" 0 9 0 9 10 10 (store_of (fresh ∷ [])) claim_ok
      (omega arith)

claim_of_canceled :
    claim true "e1" "worker" 6 6 10
      (cancel_execution ann "e1" 5 (fresh ∷ []) (store_of (fresh ∷ []))).1
    ≡ (false, (cancel_execution ann "e1" 5 (fresh ∷ []) (store_of (fresh ∷ []))).1)
claim_of_canceled =
    cancel_then_claim ann true "e1" "worker" 5 6 6 10 (fresh ∷ []) (store_of (fresh ∷ []))
      (single-Distinct fresh) cancel_ok

crash_handler_correct_example : CrashOutcome "e1" 7 "boom" (store_of (leased ∷ [])) leased
crash_handler_correct_example =
    crash_handler_correct "e1" 7 "boom" (store_of (leased ∷ [])) leased (single-Distinct leased)
      (seen_leased leased)

abbrev final : WorkflowStateDict
final = record {
  variables = empty;
  chat_history = [];
  current_node_id = "end";
  node_results = [];
  pending_auth = none;
  loop_results = [];
  final_outputs = field "end" (text "done") empty;
}

cancel_then_complete_example :
    (r : Row) × (find_unique
        (run_claimed "e1" run 9 true true
          (leased ∷ [])
          (returned (finished final))
          (cancel_execution ann "e1" 5 (fresh ∷ []) (store_of (fresh ∷ []))).1).1.rows
        "e1"
      ≡ some r)
    × (r.status ≡ completed)
cancel_then_complete_example =
    cancel_then_complete ann "e1" 5 9 true true (fresh ∷ []) (leased ∷ []) leased final
      (store_of (fresh ∷ [])) (single-Distinct fresh) (seen_leased leased) cancel_ok

abbrev always : String → Bool
always id = true

sweep_expired_leases_correct_example :
    LeaseOutcome always always 2 20 (store_of (leased ∷ [])) "e1" leased
sweep_expired_leases_correct_example =
    sweep_expired_leases_correct always always 2 20 (store_of (leased ∷ [])) "e1" leased
      (single-Distinct leased) (seen_leased leased)

leased-Lost : Lost 20 leased
leased-Lost = (refl, 10, refl, omega arith)

sweep_then_claim_example :
    Memᴰ
      (recovery_task leased)
      (sweep_expired_leases always always 3 20 (store_of (leased ∷ []))).1.tasks
    × ((claim true "e1" "worker" 21 21 10
          (sweep_expired_leases always always 3 20 (store_of (leased ∷ []))).1).0
        ≡ true)
sweep_then_claim_example =
    sweep_then_claim always always 2 20 (store_of (leased ∷ [])) "e1" leased "worker" 21 21 10
      (single-Distinct leased) (seen_leased leased) leased-Lost refl refl refl

stuck_swept : StuckOutcome always 9 20 (store_of (leased ∷ [])) "e1" leased
stuck_swept =
    sweep_stuck_executions_correct always 9 20 (store_of (leased ∷ [])) "e1" leased
      (single-Distinct leased) (seen_leased leased)

-- `datetime.fromisoformat`, for the one text of the example.
abbrev parse_zero : Value → Option ℕ
parse_zero (text s) = if s == "0" then some 0 else none
parse_zero _ = none

overdue_swept : OverdueOutcome parse_zero always 0 4000 (store_of (paused_row ∷ [])) "e1" paused_row
overdue_swept =
    sweep_expired_approvals_correct parse_zero always 0 4000 (store_of (paused_row ∷ [])) "e1"
      paused_row (single-Distinct paused_row) (seen_leased paused_row)

approval_expires : is_overdue parse_zero 1 4000 paused_row ≡ true
unfolding is_overdue
approval_expires = refl
