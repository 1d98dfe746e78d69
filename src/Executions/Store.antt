-- ===== src/Executions/Store.antt =====
-- Rows of the table `workflow_executions` with the tables beside it, and the queries the code makes.
pub mod Queries
use composer.Base.{
  ℕ, zero, suc, ◌+◌, String, Bool, true, false, Option, none, some, List, [], ◌∷◌, find, ◌==◌,
  if◌then◌else◌,
}
use composer.Value.{Value, Fields}

pub data Status : Type 0 where
  queued running waiting_approval completed failed canceled : Status

-- `status in ACTIVE_EXECUTION_STATUSES` (src/api/execution_status.py)
abbrev pub is_active : Status → Bool
is_active queued = true
is_active running = true
is_active waiting_approval = true
is_active _ = false

abbrev pub is_running : Status → Bool
is_running running = true
is_running _ = false

abbrev pub is_waiting : Status → Bool
is_waiting waiting_approval = true
is_waiting _ = false

abbrev pub is_queued : Status → Bool
is_queued queued = true
is_queued _ = false

-- The texts that the code writes into `error`.
pub data ErrorText : Type 0 where
  timeout_text approval_text lease_text : ℕ → ErrorText
  cancel_text : ErrorText
  crash_text enqueue_text : String → ErrorText

-- Times are seconds since some epoch. Input and node results play no part in the life of a row.
pub record Row : Type 0 where
  pub id : String
  pub workflow_id : String
  pub idempotency_key : Option String
  pub user_id : Option String
  pub thread_id : String
  pub status : Status
  pub error : Option ErrorText
  pub started_at : ℕ
  pub completed_at : Option ℕ
  pub lease_owner : Option String
  pub lease_expires_at : Option ℕ
  pub delivery_attempts : ℕ
  pub variables : Fields
  pub output : Option Value

pub data TaskKind : Type 0 where
  run resume : TaskKind

-- A Cloud Task: the body of its push to /internal/claim-and-run.
pub record Task : Type 0 where
  pub execution_id : String
  pub kind : TaskKind

-- Who decided: a user, or the address that a link was mailed to.
pub record Approver : Type 0 where
  pub approver_user_id : Option String
  pub approver_email : Option String
  pub via_email_link : Bool

pub record Approval : Type 0 where
  pub execution_id : String
  pub node_id : Value
  pub approver : Approver
  pub decision : String

-- Checkpoints and their writes by thread id, events by execution id.
pub record Store : Type 0 where
  pub rows : List Row
  pub approvals : List Approval
  pub tasks : List Task
  pub checkpoint_writes : List String
  pub checkpoints : List String
  pub events : List String

-- `find_unique(where={"id": id})`
unfoldable pub find_unique : List Row → String → Option Row
find_unique rows id = find (λ r. r.id == id) rows

-- `update_many(where=test, data=change)` with the number of rows that it changed.
unfoldable pub update_many : (Row → Bool) → (Row → Row) → List Row → ℕ × List Row
update_many test change [] = (0, [])
update_many test change (r ∷ rows) =
    let (n, rest) = update_many test change rows in
    if test r then (suc n, change r ∷ rest) else (n, r ∷ rest)

-- `update(where={"id": id}, data=change)`, which has no guard but the id.
unfoldable pub update : String → (Row → Row) → List Row → List Row
unfolding update_many
update id change rows = (update_many (λ r. r.id == id) change rows).1
