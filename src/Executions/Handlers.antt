-- ===== src/Executions/Handlers.antt =====
-- The handlers of src/api/executions.py. A handler reads the row, tests it, and then writes in a
-- statement of its own, so other requests may commit in between: `seen` holds the rows that it read,
-- and `store` the database that it writes to.
pub mod Races
pub mod Recording
pub mod Resuming
use Prim.Native.String as Text
use composer.Base.{
  ℕ, String, Bool, true, false, not, ◌&&◌, ◌||◌, Option, none, some, List, [], ◌∷◌, ◌++◌, map, keep,
  eqb, contains, ◌==◌, if◌then◌else◌, Result, ok, err, length, ◌-◌,
}
use composer.Value.{Value, text, null, Fields, field_at, set_field}
use composer.Executions.Store.{
  Status, running, failed, canceled, queued, is_active, is_waiting, is_queued, cancel_text,
  enqueue_text, Row, Task, TaskKind, resume, run, Approver, Approval, Store, find_unique,
  update_many, update,
}

-- The status codes of the `HTTPException`s, and an exception that the handler does not catch.
pub data HttpError : Type 0 where
  forbidden not_found conflict unprocessable too_many_requests server_error : HttpError
  uncaught : String → HttpError

-- The user and the role behind a request.
pub record Caller : Type 0 where
  pub user_id : String
  pub is_admin : Bool

-- `row.userId == user_id`
abbrev pub owns : String → Option String → Bool
owns user none = false
owns user (some owner) = owner == user

abbrev pub may_touch : Caller → Row → Bool
may_touch caller row = caller.is_admin || owns caller.user_id row.user_id

abbrev pub Answer : Type 0
Answer = Result HttpError (Unit {0}) × Store

-- What `cancel_execution` writes.
unfoldable pub mark_canceled : ℕ → Row → Row
mark_canceled now row = record row {
  status = canceled;
  error = some cancel_text;
  completed_at = some now;
}

-- `if updated_count != 1: raise HTTPException(409)`, once the update has committed.
unfoldable pub settle : ℕ × List Row → Store → Answer
settle counted store =
    (if eqb counted.0 1 then ok tt else err conflict, record store { rows = counted.1 })

-- The conditional update of `cancel_execution`.
unfoldable pub cancel_row : String → ℕ → Store → Answer
unfolding mark_canceled settle
cancel_row id now store =
    settle (update_many (λ r. r.id == id && is_active r.status) (mark_canceled now) store.rows)
      store

unfoldable pub cancel_seen : Caller → String → ℕ → Option Row → Store → Answer
unfolding cancel_row
cancel_seen caller id now none store = (err not_found, store)
cancel_seen caller id now (some row) store =
    if not (may_touch caller row)
    then (err not_found, store)
    else if not (is_active row.status)
    then (err conflict, store)
    else cancel_row id now store

unfoldable pub cancel_execution : Caller → String → ℕ → List Row → Store → Answer
unfolding cancel_seen
cancel_execution caller id now seen store = cancel_seen caller id now (find_unique seen id) store

-- `enqueue_execution`: a task is added, or the call raises.
unfoldable pub enqueue_execution : Bool → String → TaskKind → Store → Answer
enqueue_execution true id kind store =
    (ok tt, record store { tasks = store.tasks ++ record { execution_id = id; kind = kind } ∷ [] })
enqueue_execution false id kind store = (err (uncaught "enqueue_execution"), store)

-- The transition of `resume_execution`: a new run may claim the row.
unfoldable pub mark_resumed : Row → Row
mark_resumed row = record row { status = running; lease_owner = none; lease_expires_at = none }

abbrev pub user_approver : Caller → Approver
user_approver caller = record {
  approver_user_id = some caller.user_id;
  approver_email = none;
  via_email_link = false;
}

-- The statements of a decision, each committed on its own. The first tests the status where it writes.
unfoldable pub win_decision : String → Store → Answer
unfolding mark_resumed settle
win_decision id store =
    settle (update_many (λ r. r.id == id && is_waiting r.status) mark_resumed store.rows) store

abbrev pub approval_of : Approver → String → String → Value → Approval
approval_of approver id decision node = record {
  execution_id = id;
  node_id = node;
  approver = approver;
  decision = decision;
}

unfoldable pub create_approval : Approver → String → String → Value → Store → Store
create_approval approver id decision node store = record store {
  approvals = store.approvals ++ approval_of approver id decision node ∷ [];
}

abbrev pub with_decision : String → Fields → Row → Row
with_decision decision variables r = record r {
  variables = set_field variables "_resume_decision" (text decision);
}

-- `update(where={"id": ...})`, which tests nothing: the decision over the variables that the handler read.
unfoldable pub stamp_decision : String → String → Fields → Store → Store
unfolding set_field update
stamp_decision id decision variables store = record store {
  rows = update id (with_decision decision variables) store.rows;
}

-- What follows once the transition is won. The writes to the database are taken to go through.
unfoldable pub record_decision : Approver → String → String → Bool → Fields → Value → Store → Answer
unfolding enqueue_execution create_approval stamp_decision
record_decision approver id decision enqueued variables node store =
    enqueue_execution enqueued id resume
      (stamp_decision id decision variables (create_approval approver id decision node store))

-- The handler goes on only if the transition was won.
unfoldable pub if_won : Answer → (Store → Answer) → Answer
if_won (ok u, store) rest = rest store
if_won (err e, store) rest = (err e, store)

unfoldable pub resume_row : Approver → String → String → Bool → Fields → Value → Store → Answer
unfolding win_decision record_decision if_won
resume_row approver id decision enqueued variables node store =
    if_won (win_decision id store) (record_decision approver id decision enqueued variables node)

-- `variables.get("_pending_approval_node")` must be there and not None.
unfoldable pub resume_pending :
    Caller → String → String → Bool → Fields → Option Value → Store → Answer
unfolding resume_row
resume_pending caller id decision enqueued variables none store = (err server_error, store)
resume_pending caller id decision enqueued variables (some null) store = (err server_error, store)
resume_pending caller id decision enqueued variables (some node) store =
    resume_row (user_approver caller) id decision enqueued variables node store

unfoldable pub resume_seen : Caller → String → String → Bool → Option Row → Store → Answer
unfolding resume_pending field_at
resume_seen caller id decision enqueued none store = (err not_found, store)
resume_seen caller id decision enqueued (some row) store =
    if not (may_touch caller row)
    then (err not_found, store)
    else if not (is_waiting row.status)
    then (err conflict, store)
    else resume_pending caller id decision enqueued row.variables
        (field_at row.variables "_pending_approval_node") store

-- `limited` is the rate limiter's answer, `enqueued` whether the Cloud Tasks call succeeds.
unfoldable pub resume_execution : Caller → String → String → Bool → Bool → List Row → Store → Answer
unfolding resume_seen
resume_execution caller id decision limited enqueued seen store =
    if limited
    then (err too_many_requests, store)
    else resume_seen caller id decision enqueued (find_unique seen id) store
