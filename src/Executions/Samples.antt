-- ===== src/Executions/Samples.antt =====
-- Two callers and small tables for the tests.
use mathlib.Core.List.Memᴰ
use composer.Base.{
  ℕ, String, ◌≡◌, refl, true, false, Option, none, some, List, [], ◌∷◌, Distinct, arith, eq_iff,
}
use composer.Value.{text, empty, field}
use composer.Executions.Store.{
  Status, queued, running, waiting_approval, completed, Row, Store, find_unique,
}
use composer.Executions.Store.Queries.{row_ids}
use composer.Executions.Handlers.{Caller}

abbrev pub ann : Caller
ann = record { user_id = "ann"; is_admin = false }

abbrev pub root : Caller
root = record { user_id = "root"; is_admin = true }

abbrev pub row_of : String → Status → Option ℕ → ℕ → Row
row_of id status lease attempts = record {
  id = id;
  workflow_id = "w";
  idempotency_key = some "k";
  user_id = some "ann";
  thread_id = "t";
  status = status;
  error = none;
  started_at = 0;
  completed_at = none;
  lease_owner = none;
  lease_expires_at = lease;
  delivery_attempts = attempts;
  variables =
      field "_pending_approval_node" (text "review")
        (field "_pending_approval_since" (text "0") empty);
  output = none;
}

abbrev pub store_of : List Row → Store
store_of rows = record {
  rows = rows;
  approvals = [];
  tasks = [];
  checkpoint_writes = "t" ∷ [];
  checkpoints = "t" ∷ [];
  events = "e1" ∷ [];
}

abbrev pub fresh : Row
fresh = row_of "e1" queued none 0

abbrev pub leased : Row
leased = row_of "e1" running (some 10) 1

abbrev pub paused_row : Row
paused_row = row_of "e1" waiting_approval none 1

abbrev pub ended_row : Row
ended_row = row_of "e1" completed none 1

pub single-Distinct : (r : Row) → Distinct (row_ids (r ∷ []))
single-Distinct r = (Memᴰ.not-nil, tt)

pub seen_leased : (r : Row) → find_unique (r ∷ []) r.id ≡ some r
unfolding find_unique
seen_leased r = ground (arith, (eq_iff r.id r.id).1 refl)
