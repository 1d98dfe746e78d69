-- ===== src/Executions/Lifecycle.antt =====
-- The whole life of the executions: every operation on the tables as a step, in any order and with any
-- arguments. A handler's earlier reads are arguments too, so a step may act on stale rows.
pub mod Keys
pub mod Effects
pub mod Moves
pub mod Final
pub mod Composed
mod Tests
use composer.Base.{
  ℕ, suc, String, ◌≡◌, ◌≢◌, Bool, true, false, Option, none, some, List, [], ◌∷◌, ◌++◌, ◌⊎◌, ◌==◌,
}
use composer.Value.{Value, Fields}
use composer.Executions.Store.{
  Status, running, canceled, failed, is_active, Row, TaskKind, Approver, Store, find_unique,
}
use composer.Executions.Handlers.{
  Caller, cancel_execution, win_decision, create_approval, stamp_decision, enqueue_execution,
}
use composer.Executions.Creating.{Request, existing_for, fail_queued}
use composer.Executions.Creating.Correct.{row_for}
use composer.Executions.Deleting.{delete_execution, delete_executions_bulk}
use composer.Executions.Worker.{Invoked, Ended, claim, returned, crashed, run_claimed}
use composer.Executions.Sweeper.{
  sweep_stuck_executions, sweep_expired_approvals, sweep_expired_leases,
}

-- What tests a row's status where it writes it, or writes a snapshot that is fresh. The statements of a
-- decision are steps of their own, so anything may come between them.
pub data Guarded (s : Store) : Store → Type 0 where
  insert :
      (caller : Caller) (request : Request) (now : ℕ)
      → find_unique s.rows request.fresh_id ≡ none
      → existing_for request.idempotency_key request.workflow_id s.rows ≡ none
      → Guarded s (record s { rows = s.rows ++ row_for caller request now ∷ [] })
  enqueue :
      (accepted : Bool) (id : String) (kind : TaskKind)
      → Guarded s (enqueue_execution accepted id kind s).1
  record_failure :
      (saved : Bool) (id : String) (now : ℕ) (why : String)
      → Guarded s (fail_queued saved id now why s)
  cancel :
      (caller : Caller) (id : String) (now : ℕ) (seen : List Row)
      → Guarded s (cancel_execution caller id now seen s).1
  win : (id : String) → Guarded s (win_decision id s).1
  approve :
      (approver : Approver) (id decision : String) (node : Value)
      → Guarded s (create_approval approver id decision node s)
  delete :
      (caller : Caller) (id : String) (seen : List Row)
      → Guarded s (delete_execution caller id seen s).1
  delete_bulk :
      (caller : Caller) (all_in_scope : Bool) (requested : List String) (seen : List Row)
      → Guarded s (delete_executions_bulk caller all_in_scope requested seen s).1
  deliver :
      (unlocked : Bool) (id worker : String) (now handler_now seconds : ℕ)
      → Guarded s (claim unlocked id worker now handler_now seconds s).1
  crash :
      (id : String) (kind : TaskKind) (now : ℕ) (started ended : Bool) (seen : List Row)
      (why : String) (saved : Bool)
      → Guarded s (run_claimed id kind now started ended seen (crashed why saved) s).1
  sweep_stuck :
      (writes : String → Bool) (after now : ℕ)
      → Guarded s (sweep_stuck_executions writes (suc after) now s).1
  sweep_approvals :
      (parse : Value → Option ℕ) (writes : String → Bool) (hours now : ℕ)
      → Guarded s (sweep_expired_approvals parse writes (suc hours) now s).1
  sweep_leases :
      (writes enqueues : String → Bool) (attempts now : ℕ)
      → Guarded s (sweep_expired_leases writes enqueues (suc attempts) now s).1

-- Those, and the write of a decision, which tests nothing: no row's status is written but by these and by the
-- end of a run.
pub data Statement (s : Store) : Store → Type 0 where
  guarded : {t : Store} → Guarded s t → Statement s t
  stamp :
      (id decision : String) (variables : Fields)
      → Statement s (stamp_decision id decision variables s)

-- All operations: those, and the end of a run that writes its result.
pub data Step (s : Store) : Store → Type 0 where
  statement : {t : Store} → Statement s t → Step s t
  run_end :
      (id : String) (kind : TaskKind) (now : ℕ) (started ended : Bool) (seen : List Row)
      (invoked : Invoked)
      → Step s (run_claimed id kind now started ended seen (returned invoked) s).1

-- The stores that operations lead to.
pub data Reach (s : Store) : Store → Type 0 where
  here : Reach s s
  next : {t u : Store} → Reach s t → Step t u → Reach s u

-- A sequence of operations in which no run of the execution ends, and after each of which its row is there.
pub data Life (id : String) (s : Store) : Store → Type 0 where
  begin : Life id s s
  live : {t u : Store} → Life id s t → Statement t u → find_unique u.rows id ≢ none → Life id s u
  other_run :
      {t : Store} (other : String) (kind : TaskKind) (now : ℕ) (started ended : Bool)
      (seen : List Row) (invoked : Invoked)
      → Life id s t
      → (id == other) ≡ false
      → Life id s (run_claimed other kind now started ended seen (returned invoked) t).1

-- The abstract machine: a status that has ended is never left, and an active one turns into another by
-- a claim or a decision, a cancel request, or a failure that is recorded.
pub data Move (from to : Status) : Type 0 where
  run_again : is_active from ≡ true → to ≡ running → Move from to
  cancel_it : is_active from ≡ true → to ≡ canceled → Move from to
  fail_it : is_active from ≡ true → to ≡ failed → Move from to
