-- ===== src/Executions/Handlers/Resuming.antt =====
-- `resume_execution` of src/api/executions.py: the whole record of a decision, or nothing.
use composer.Base.{
  String, ◌≡◌, refl, ◌≢◌, Bool, true, false, Option, none, some, List, ◌⊎◌, Distinct, Bool-cases,
  inl, inr, sym, subst, ◌∙◌,
}
use composer.Value.{Value, Fields, null, bool, int, text, arr, obj, field_at}
use composer.Executions.Store.{Row, Store, is_waiting, find_unique}
use composer.Executions.Store.Queries.{row_ids}
use composer.Executions.Handlers.{
  Caller, Answer, user_approver, conflict, not_found, may_touch, mark_resumed, resume_row,
  resume_pending, resume_seen, resume_execution,
}
use composer.Executions.Handlers.Recording.{stamped, Refused, Recorded, resume_row_cases}

-- A decision on the node that the row is waiting at.
abbrev pub Pending :
    Caller → String → String → Bool → Fields → Option Value → Store → Answer → Type 0
Pending caller id decision enqueued variables pending store answer =
    (node : Value) × (pending ≡ some node)
    × (node ≢ null)
    × Recorded (user_approver caller) id decision enqueued variables node store answer

decide_cases :
    (caller : Caller) (id decision : String) (enqueued : Bool) (variables : Fields) (node : Value)
    (store : Store)
    → Distinct (row_ids store.rows)
    → node ≢ null
    → Refused store (resume_row (user_approver caller) id decision enqueued variables node store)
      ⊎ Pending caller id decision enqueued variables
          (some node)
          store
          (resume_row (user_approver caller) id decision enqueued variables node store)
decide_cases caller id decision enqueued variables node store d real =
    elim (resume_row_cases (user_approver caller) id decision enqueued variables node store d) [
      | inl refused ↦ inl refused
      | inr recorded ↦ inr (node, refl, real, recorded)
    ]

resume_pending_cases :
    (caller : Caller) (id decision : String) (enqueued : Bool) (variables : Fields)
    (pending : Option Value) (store : Store)
    → Distinct (row_ids store.rows)
    → Refused store (resume_pending caller id decision enqueued variables pending store)
      ⊎ Pending caller id decision enqueued variables pending store
          (resume_pending caller id decision enqueued variables pending store)
unfolding resume_pending
resume_pending_cases caller id decision enqueued variables none store d = inl (_, refl)
resume_pending_cases caller id decision enqueued variables (some null) store d = inl (_, refl)
resume_pending_cases caller id decision enqueued variables (some (bool b)) store d =
    decide_cases caller id decision enqueued variables (bool b) store d (λ e. cc e)
resume_pending_cases caller id decision enqueued variables (some (int n)) store d =
    decide_cases caller id decision enqueued variables (int n) store d (λ e. cc e)
resume_pending_cases caller id decision enqueued variables (some (text t)) store d =
    decide_cases caller id decision enqueued variables (text t) store d (λ e. cc e)
resume_pending_cases caller id decision enqueued variables (some (arr xs)) store d =
    decide_cases caller id decision enqueued variables (arr xs) store d (λ e. cc e)
resume_pending_cases caller id decision enqueued variables (some (obj fs)) store d =
    decide_cases caller id decision enqueued variables (obj fs) store d (λ e. cc e)

-- A decision recorded for a caller who may touch the row that the request read, on its pending node.
abbrev pub Decided : Caller → String → String → Bool → Option Row → Store → Answer → Type 0
Decided caller id decision enqueued seen store answer =
    (s : Row) × (seen ≡ some s)
    × (may_touch caller s ≡ true)
    × Pending caller id decision enqueued s.variables
        (field_at s.variables "_pending_approval_node") store answer

resume_seen_cases :
    (caller : Caller) (id decision : String) (enqueued : Bool) (seen : Option Row) (store : Store)
    → Distinct (row_ids store.rows)
    → Refused store (resume_seen caller id decision enqueued seen store)
      ⊎ Decided caller id decision enqueued seen store
          (resume_seen caller id decision enqueued seen store)
unfolding resume_seen
resume_seen_cases caller id decision enqueued none store d = inl (_, refl)
resume_seen_cases caller id decision enqueued (some s) store d =
    elim (Bool-cases (may_touch caller s)) [
      | inr denied ↦ inl (not_found, rw denied)
      | inl may ↦ elim (Bool-cases (is_waiting s.status)) [
        | inr ended ↦ inl (conflict, rw (may, ended))
        | inl waiting ↦
            let passed : resume_seen caller id decision enqueued (some s) store
                ≡ resume_pending caller id decision enqueued s.variables
                    (field_at s.variables "_pending_approval_node") store =
              rw (may, waiting) refl in
            elim (resume_pending_cases caller id decision enqueued s.variables
              (field_at s.variables "_pending_approval_node") store d) [
                | inl (e, refused) ↦ inl (e, passed ∙ refused)
                | inr decided ↦ inr (
                  s,
                  refl,
                  may,
                  subst
                      (Pending caller id decision enqueued s.variables
                        (field_at s.variables "_pending_approval_node") store)
                      (sym passed) decided,
                )
              ]
      ]
    ]

-- A resume request does nothing but answer an error, or records the decision whole: its caller may
-- touch the row that it read, the row is waiting at the moment of the write, and afterwards it is
-- running without a lease, with the decision stamped, one approval for the pending node is added,
-- and one resume task if Cloud Tasks takes it; if it does not, the request fails.
-- It is taken that its writes to the database go through and that no other request writes between its
-- statements.
pub resume_execution_correct :
    (caller : Caller) (id decision : String) (limited enqueued : Bool) (seen : List Row)
    (store : Store)
    → Distinct (row_ids store.rows)
    → Refused store (resume_execution caller id decision limited enqueued seen store)
      ⊎ Decided caller id decision enqueued
          (find_unique seen id)
          store
          (resume_execution caller id decision limited enqueued seen store)
unfolding resume_execution
resume_execution_correct caller id decision true enqueued seen store d = inl (_, refl)
resume_execution_correct caller id decision false enqueued seen store d =
    resume_seen_cases caller id decision enqueued (find_unique seen id) store d

-- After a resume request that recorded its decision, a second one is refused, whatever it had read.
pub resume_execution_once :
    (caller caller' : Caller) (id decision decision' : String)
    (limited limited' enqueued enqueued' : Bool) (seen seen' : List Row) (store : Store)
    → Distinct (row_ids store.rows)
    → (resume_execution caller id decision limited enqueued seen store).1 ≢ store
    → Refused (resume_execution caller id decision limited enqueued seen store).1 (
        resume_execution caller' id decision' limited' enqueued' seen'
          (resume_execution caller id decision limited enqueued seen store).1)
unfolding mark_resumed
resume_execution_once caller caller' id decision decision' limited limited' enqueued enqueued' seen
      seen' store d wrote =
    elim (resume_execution_correct caller id decision limited enqueued seen store d) [
      | inl (e, refused) ↦ absurd (wrote (cc refused))
      | inr
            (
              s,
              read,
              may,
              (node, there, real, (r, found, waiting, left, ids, approved, queue, answer)),
            ) ↦
          elim (resume_execution_correct caller' id decision' limited' enqueued' seen'
            (resume_execution caller id decision limited enqueued seen store).1
            (subst Distinct (sym ids) d)) [
              | inl refused ↦ refused
              | inr
                    (
                      s',
                      read',
                      may',
                      (
                        node',
                        there',
                        real',
                        (r', found', waiting', left', ids', approved', queue', answer'),
                      ),
                    ) ↦
                  let same : stamped r decision s.variables ≡ r' = cc (left, found') in
                  let still : is_waiting (stamped r decision s.variables).status ≡ true =
                    subst (λ (x : Row). is_waiting x.status ≡ true) (sym same) waiting' in
                  absurd (cc still)
            ]
    ]
