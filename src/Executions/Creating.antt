-- ===== src/Executions/Creating.antt =====
-- `create_execution` (src/api/executions.py) with `start_execution` (src/engine/langgraph_executor.py).
pub mod Correct
use composer.Base.{
  ℕ, zero, String, Bool, true, false, not, ◌&&◌, ◌||◌, Option, none, some, List, [], ◌∷◌, ◌++◌,
  find, ltb, ◌==◌, if◌then◌else◌, Result, ok, err, ◌>>=◌,
}
use composer.Value.{empty}
use composer.Executions.Store.{
  Status, queued, failed, is_queued, enqueue_text, Row, TaskKind, run, Store, find_unique,
  update_many,
}
use composer.Executions.Handlers.{
  HttpError, not_found, too_many_requests, server_error, uncaught, Caller, owns, Answer,
  enqueue_execution,
}

-- What the handler refuses before it touches the executions: `too_large` is its 413.
pub data CreateError : Type 0 where
  too_large : CreateError
  http : HttpError → CreateError

-- The fields of a workflow's row that the handler reads.
pub record WorkflowRow : Type 0 where
  pub is_public : Bool
  pub user_id : Option String

-- `workflowId_idempotencyKey`, which is unique
unfoldable pub has_key : String → String → Row → Bool
has_key workflow_id key row =
    row.workflow_id == workflow_id && elim row.idempotency_key [ none ↦ false | some k ↦ k == key ]

unfoldable pub find_by_idempotency_key : List Row → String → String → Option Row
unfolding has_key
find_by_idempotency_key rows workflow_id key = find (has_key workflow_id key) rows

-- `role != "admin" and not workflow.isPublic and workflow.userId != user_id` is refused.
unfoldable pub may_start : Caller → Option WorkflowRow → Bool
may_start caller none = false
may_start caller (some w) = caller.is_admin || (w.is_public || owns caller.user_id w.user_id)

-- The row that `start_execution` creates; its id and its thread id are fresh.
unfoldable pub new_row : Caller → String → Option String → String → String → ℕ → Row
new_row caller workflow_id key id thread_id now = record {
  id = id;
  workflow_id = workflow_id;
  idempotency_key = key;
  user_id = some caller.user_id;
  thread_id = thread_id;
  status = queued;
  error = none;
  started_at = now;
  completed_at = none;
  lease_owner = none;
  lease_expires_at = none;
  delivery_attempts = 0;
  variables = empty;
  output = none;
}

-- What `enqueue_execution` raising leads to: the row is marked failed if it is still queued, unless
-- that write raises as well.
unfoldable pub mark_enqueue_failed : ℕ → String → Row → Row
mark_enqueue_failed now why row = record row {
  status = failed;
  error = some (enqueue_text why);
  completed_at = some now;
}

unfoldable pub fail_queued : Bool → String → ℕ → String → Store → Store
unfolding update_many mark_enqueue_failed
fail_queued false id now why store = store
fail_queued true id now why store = record store {
  rows =
      (update_many (λ r. r.id == id && is_queued r.status) (mark_enqueue_failed now why)
        store.rows).1;
}

-- How the call of Cloud Tasks goes: it takes the task, or raises after other requests have committed,
-- and the row's update then goes through or not.
pub data Enqueueing : Type 0 where
  accepted : Enqueueing
  rejected : (Store → Store) → Bool → Enqueueing

pub data Created : Type 0 where
  started replayed : Row → Created

abbrev pub CreateAnswer : Type 0
CreateAnswer = Result CreateError Created × Store

unfoldable pub enqueue_new : Enqueueing → ℕ → String → Row → Store → CreateAnswer
unfolding fail_queued enqueue_execution
enqueue_new accepted now why row store =
    (ok (started row), (enqueue_execution true row.id run store).1)
enqueue_new (rejected others saved) now why row store =
    (err (http server_error), fail_queued saved row.id now why (others store))

-- The insertion: a row with the workflow and the key violates the unique constraint, and is returned.
unfoldable pub insert_row : Enqueueing → ℕ → String → Row → Option Row → Store → CreateAnswer
unfolding enqueue_new
insert_row enqueueing now why row (some existing) store = (ok (replayed existing), store)
insert_row enqueueing now why row none store =
    enqueue_new enqueueing now why row (record store { rows = store.rows ++ row ∷ [] })

-- The row that already has the key, if a key is given.
unfoldable pub existing_for : Option String → String → List Row → Option Row
unfolding find_by_idempotency_key
existing_for none workflow_id rows = none
existing_for (some key) workflow_id rows = find_by_idempotency_key rows workflow_id key

-- The fast path reads the rows first, for a key that is not empty.
unfoldable pub seen_for : Option String → String → List Row → Option Row
unfolding find_by_idempotency_key
seen_for none workflow_id rows = none
seen_for (some key) workflow_id rows =
    if key == "" then none else find_by_idempotency_key rows workflow_id key

unfoldable pub start_or_replay : Enqueueing → ℕ → String → Row → Option Row → Store → CreateAnswer
unfolding insert_row existing_for
start_or_replay enqueueing now why row (some existing) store = (ok (replayed existing), store)
start_or_replay enqueueing now why row none store =
    insert_row enqueueing now why row (existing_for row.idempotency_key row.workflow_id store.rows)
      store

-- The body of the request, and the ids that the database and `uuid4` give the new row.
pub record Request : Type 0 where
  pub workflow_id : String
  pub idempotency_key : Option String
  pub input_size : ℕ
  pub fresh_id : String
  pub fresh_thread_id : String

-- `limited` is the rate limiter's answer; `seen` holds the rows that the fast path reads.
unfoldable pub create_execution :
    Caller
    → Request
    → Bool
    → ℕ
    → Option WorkflowRow
    → Enqueueing
    → ℕ
    → String
    → List Row
    → Store
    → CreateAnswer
unfolding may_start start_or_replay seen_for new_row
create_execution caller request limited max_bytes workflow enqueueing now why seen store =
    if limited
    then (err (http too_many_requests), store)
    else if ltb max_bytes request.input_size
    then (err too_large, store)
    else if not (may_start caller workflow)
    then (err (http not_found), store)
    else start_or_replay enqueueing now why
        (new_row caller request.workflow_id request.idempotency_key request.fresh_id
          request.fresh_thread_id now)
        (seen_for request.idempotency_key request.workflow_id seen) store
