-- ===== src/Executions/Lifecycle/Composed.antt =====
-- The handlers of a decision as their statements, one after the other: `resume_execution` of
-- src/api/executions.py and `confirm_approval_email` of src/api/approval_email.py.
use composer.Base.{
  String, Bool, true, false, Option, none, some, List, ok, err, Bool-cases, inl, inr,
}
use composer.Value.{Value, Fields, null, bool, int, text, arr, obj, field_at}
use composer.Executions.Store.{resume, Row, Approver, Store, is_waiting, find_unique}
use composer.Executions.Handlers.{
  Caller, Answer, uncaught, conflict, forbidden, not_found, unprocessable, too_many_requests,
  server_error, may_touch, win_decision, record_decision, if_won, resume_row, resume_pending,
  resume_seen, resume_execution,
}
use composer.Executions.Emails.{
  TokenLibrary, ApprovalEmailClaims, redirect_decided, validate_token_and_execution,
  confirm_validated, confirm_approval_email,
}
use composer.Executions.Lifecycle.{
  guarded, stamp, enqueue, win, approve, statement, Reach, here, next,
}

if_won-Reach :
    {s : Store} (answer : Answer) (rest : Store → Answer)
    → Reach s answer.1
    → ((u : Store) → Reach s u → Reach s (rest u).1)
    → Reach s (if_won answer rest).1
unfolding if_won
if_won-Reach (ok u, store) rest before after = after store before
if_won-Reach (err e, store) rest before after = before

record_decision-Reach :
    {s : Store} (approver : Approver) (id decision : String) (enqueued : Bool) (variables : Fields)
    (node : Value) (u : Store)
    → Reach s u
    → Reach s (record_decision approver id decision enqueued variables node u).1
unfolding record_decision
record_decision-Reach approver id decision enqueued variables node u before =
    next
      (next (next before (statement (guarded (approve approver id decision node))))
        (statement (stamp id decision variables)))
      (statement (guarded (enqueue enqueued id resume)))

resume_row-Reach :
    (approver : Approver) (id decision : String) (enqueued : Bool) (variables : Fields)
    (node : Value) (store : Store)
    → Reach store (resume_row approver id decision enqueued variables node store).1
unfolding resume_row
resume_row-Reach approver id decision enqueued variables node store =
    if_won-Reach (win_decision id store) _ (next here (statement (guarded (win id))))
      (record_decision-Reach approver id decision enqueued variables node)

resume_pending-Reach :
    (caller : Caller) (id decision : String) (enqueued : Bool) (variables : Fields)
    (pending : Option Value) (store : Store)
    → Reach store (resume_pending caller id decision enqueued variables pending store).1
unfolding resume_pending
resume_pending-Reach caller id decision enqueued variables none store = here
resume_pending-Reach caller id decision enqueued variables (some null) store = here
resume_pending-Reach caller id decision enqueued variables (some (bool b)) store =
    resume_row-Reach _ id decision enqueued variables (bool b) store
resume_pending-Reach caller id decision enqueued variables (some (int n)) store =
    resume_row-Reach _ id decision enqueued variables (int n) store
resume_pending-Reach caller id decision enqueued variables (some (text t)) store =
    resume_row-Reach _ id decision enqueued variables (text t) store
resume_pending-Reach caller id decision enqueued variables (some (arr xs)) store =
    resume_row-Reach _ id decision enqueued variables (arr xs) store
resume_pending-Reach caller id decision enqueued variables (some (obj fs)) store =
    resume_row-Reach _ id decision enqueued variables (obj fs) store

resume_seen-Reach :
    (caller : Caller) (id decision : String) (enqueued : Bool) (seen : Option Row) (store : Store)
    → Reach store (resume_seen caller id decision enqueued seen store).1
unfolding resume_seen
resume_seen-Reach caller id decision enqueued none store = here
resume_seen-Reach caller id decision enqueued (some row) store =
    elim (Bool-cases (may_touch caller row)) [
      | inr denied ↦ rw denied here
      | inl may ↦ elim (Bool-cases (is_waiting row.status)) [
        | inr ended ↦ rw (may, ended) here
        | inl waiting ↦
            rw (may, waiting)
              (resume_pending-Reach caller id decision enqueued row.variables
                (field_at row.variables "_pending_approval_node") store)
      ]
    ]

-- A resume request is some of these statements, one after the other.
pub resume_execution-Reach :
    (caller : Caller) (id decision : String) (limited enqueued : Bool) (seen : List Row)
    (store : Store)
    → Reach store (resume_execution caller id decision limited enqueued seen store).1
unfolding resume_execution
resume_execution-Reach caller id decision true enqueued seen store = here
resume_execution-Reach caller id decision false enqueued seen store =
    resume_seen-Reach caller id decision enqueued (find_unique seen id) store

redirect_decided-Reach :
    {s : Store} (decision : String) (answer : Answer)
    → Reach s answer.1
    → Reach s (redirect_decided decision answer).1
unfolding redirect_decided
redirect_decided-Reach decision (ok u, store) before = before
redirect_decided-Reach decision (err conflict, store) before = before
redirect_decided-Reach decision (err (uncaught why), store) before = before
redirect_decided-Reach decision (err forbidden, store) before = before
redirect_decided-Reach decision (err not_found, store) before = before
redirect_decided-Reach decision (err unprocessable, store) before = before
redirect_decided-Reach decision (err too_many_requests, store) before = before
redirect_decided-Reach decision (err server_error, store) before = before

confirm_validated-Reach :
    (enqueued : Bool) (validated : Option (ApprovalEmailClaims × Row)) (store : Store)
    → Reach store (confirm_validated enqueued validated store).1
unfolding confirm_validated
confirm_validated-Reach enqueued none store = here
confirm_validated-Reach enqueued (some (claims, row)) store =
    redirect_decided-Reach claims.decision _ (
      resume_row-Reach _ claims.sub claims.decision enqueued row.variables (text claims.node_id)
        store)

-- And so is a confirmed link.
pub confirm_approval_email-Reach :
    (library : TokenLibrary) (token : String) (limited enqueued : Bool) (seen : List Row)
    (store : Store)
    → Reach store (confirm_approval_email library token limited enqueued seen store).1
unfolding confirm_approval_email
confirm_approval_email-Reach library token true enqueued seen store = here
confirm_approval_email-Reach library token false enqueued seen store =
    confirm_validated-Reach enqueued (validate_token_and_execution library token seen) store
