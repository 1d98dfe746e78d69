-- ===== src/Executions/Sweeper.antt =====
-- The sweeps of src/maintenance/execution_sweeper.py. `writes` and `enqueues` say for which executions an
-- update of the row and a Cloud Tasks call go through; the exception of one that does not is caught.
pub mod Scan
pub mod Leases
pub mod Recovery
pub mod Deadlines
use composer.Base.{
  ℕ, zero, suc, ◌+◌, ◌-◌, ◌*◌, String, Bool, true, false, not, ◌&&◌, ◌||◌, Option, none, some, List,
  [], ◌∷◌, ltb, leb, keep, length, if◌then◌else◌, Result, ok, err,
}
use composer.Value.{Value, Fields, field_at, truthy}
use composer.Executions.Store.{
  Status, failed, is_running, is_waiting, timeout_text, approval_text, lease_text, Row, Task,
  TaskKind, run, resume, Store, find_unique, update,
}
use composer.Executions.Handlers.{Answer, enqueue_execution}

pub record SweepResult : Type 0 where
  pub scanned : ℕ
  pub marked_failed : ℕ
  pub errored : ℕ

-- The `ValueError` of a timeout that is not positive.
pub data SweepError : Type 0 where
  not_positive : SweepError

-- `for row in rows: try: update(row.id, change); marked += 1`
unfoldable pub fail_all : (String → Bool) → (Row → Row) → List Row → List Row → ℕ × List Row
unfolding update
fail_all writes change [] table = (0, table)
fail_all writes change (r ∷ rows) table =
    let rest =
      fail_all writes change rows (if writes r.id then update r.id change table else table) in
    (if writes r.id then suc rest.0 else rest.0, rest.1)

-- `startedAt < now - stuck_after_seconds`, on running rows
unfoldable pub is_stuck : ℕ → ℕ → Row → Bool
is_stuck stuck_after now row = is_running row.status && ltb (row.started_at + stuck_after) now

unfoldable pub mark_timed_out : ℕ → ℕ → Row → Row
mark_timed_out stuck_after now row = record row {
  status = failed;
  error = some (timeout_text stuck_after);
  completed_at = some now;
}

unfoldable pub sweep_stuck_executions :
    (String → Bool) → ℕ → ℕ → Store → Result SweepError SweepResult × Store
unfolding fail_all is_stuck mark_timed_out
sweep_stuck_executions writes zero now store = (err not_positive, store)
sweep_stuck_executions writes (suc s) now store =
    let rows = keep (is_stuck (suc s) now) store.rows in
    let swept = fail_all writes (mark_timed_out (suc s) now) rows store.rows in
    (
      ok (record { scanned = length rows; marked_failed = swept.0; errored = 0 }),
      record store { rows = swept.1 },
    )

-- The age test of `sweep_expired_approvals`. `parse` is `datetime.fromisoformat`, `none` where it raises.
unfoldable pub since_expired : (Value → Option ℕ) → ℕ → ℕ → Option Value → Bool
since_expired parse hours now none = false
since_expired parse hours now (some since_raw) =
    truthy since_raw
    && elim (parse since_raw) [ none ↦ false | some since ↦ ltb (since + hours * 3600) now ]

unfoldable pub is_overdue : (Value → Option ℕ) → ℕ → ℕ → Row → Bool
unfolding since_expired field_at
is_overdue parse hours now row =
    since_expired parse hours now (field_at row.variables "_pending_approval_since")

unfoldable pub mark_overdue : ℕ → ℕ → Row → Row
mark_overdue hours now row = record row {
  status = failed;
  error = some (approval_text hours);
  completed_at = some now;
}

unfoldable pub sweep_expired_approvals :
    (Value → Option ℕ) → (String → Bool) → ℕ → ℕ → Store → Result SweepError SweepResult × Store
unfolding fail_all is_overdue mark_overdue
sweep_expired_approvals parse writes zero now store = (err not_positive, store)
sweep_expired_approvals parse writes (suc h) now store =
    let rows = keep (λ r. is_waiting r.status) store.rows in
    let swept =
      fail_all writes (mark_overdue (suc h) now) (keep (is_overdue parse (suc h) now) rows)
        store.rows in
    (
      ok (record { scanned = length rows; marked_failed = swept.0; errored = 0 }),
      record store { rows = swept.1 },
    )

-- `leaseExpiresAt < now`, which NULL never is
unfoldable pub lease_expired : ℕ → Option ℕ → Bool
lease_expired now none = false
lease_expired now (some expires) = ltb expires now

unfoldable pub is_lost : ℕ → Row → Bool
unfolding lease_expired
is_lost now row = is_running row.status && lease_expired now row.lease_expires_at

unfoldable pub mark_dead : ℕ → ℕ → Row → Row
mark_dead attempts now row = record row {
  status = failed;
  error = some (lease_text attempts);
  completed_at = some now;
  lease_owner = none;
  lease_expires_at = none;
}

unfoldable pub clear_lease : Row → Row
clear_lease row = record row { lease_owner = none; lease_expires_at = none }

-- `"resume" if "_resume_decision" in row_variables else "run"`
unfoldable pub recovery_kind : Row → TaskKind
unfolding field_at
recovery_kind row = elim (field_at row.variables "_resume_decision") [
  | none ↦ run
  | some v ↦ resume
]

-- What became of one row of a lease sweep.
pub data Fate : Type 0 where
  dead recovered errored_row : Fate

-- An update that goes through ends in `fate`, and one that raises changes nothing.
unfoldable pub try_update : Bool → Fate → String → (Row → Row) → Store → Fate × Store
unfolding update
try_update true fate id change store = (fate, record store { rows = update id change store.rows })
try_update false fate id change store = (errored_row, store)

-- The task is enqueued before the lease is cleared.
unfoldable pub clear_if_enqueued : Bool → String → Answer → Fate × Store
unfolding try_update clear_lease
clear_if_enqueued written id (ok u, store) = try_update written recovered id clear_lease store
clear_if_enqueued written id (err e, store) = (errored_row, store)

unfoldable pub sweep_lease : Bool → Bool → ℕ → ℕ → Row → Store → Fate × Store
unfolding try_update mark_dead clear_if_enqueued recovery_kind enqueue_execution
sweep_lease written enqueued max_attempts now row store =
    if leb max_attempts row.delivery_attempts
    then try_update written dead row.id (mark_dead row.delivery_attempts now) store
    else clear_if_enqueued written row.id
        (enqueue_execution enqueued row.id (recovery_kind row) store)

unfoldable pub count_fate : Fate → SweepResult → SweepResult
count_fate dead r = record r { marked_failed = suc r.marked_failed }
count_fate recovered r = r
count_fate errored_row r = record r { errored = suc r.errored }

unfoldable pub sweep_leases :
    (String → Bool) → (String → Bool) → ℕ → ℕ → List Row → SweepResult → Store → SweepResult × Store
unfolding sweep_lease count_fate
sweep_leases writes enqueues max_attempts now [] result store = (result, store)
sweep_leases writes enqueues max_attempts now (r ∷ rows) result store =
    let (fate, next) = sweep_lease (writes r.id) (enqueues r.id) max_attempts now r store in
    sweep_leases writes enqueues max_attempts now rows (count_fate fate result) next

unfoldable pub sweep_expired_leases :
    (String → Bool) → (String → Bool) → ℕ → ℕ → Store → Result SweepError SweepResult × Store
unfolding sweep_leases is_lost
sweep_expired_leases writes enqueues zero now store = (err not_positive, store)
sweep_expired_leases writes enqueues (suc m) now store =
    let rows = keep (is_lost now) store.rows in
    let (result, swept) =
      sweep_leases writes enqueues (suc m) now rows
        (record { scanned = length rows; marked_failed = 0; errored = 0 }) store in
    (ok result, swept)
