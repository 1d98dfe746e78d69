-- ===== src/Executions/Handlers/Recording.antt =====
-- The transition that `resume_execution` wins, and what it records after it.
use composer.Base.{
  String, ◌≡◌, refl, Bool, true, false, ◌&&◌, some, [], ◌∷◌, ◌++◌, ◌⊎◌, Distinct, inl, inr, ok, err,
  ◌==◌, sym, subst, ◌∙◌, if◌then◌else◌,
}
use composer.Value.{Value, Fields, text, set_field}
use composer.Executions.Store.{
  Row, Store, Task, resume, Approver, is_waiting, find_unique, update_many,
}
use composer.Executions.Store.Queries.{
  row_ids, KeepsId, row_ids-update_many, row_ids-update, update_many-won, update_many-cases,
  update_many-zero, find_unique-update,
}
use composer.Executions.Handlers.{
  Answer, HttpError, conflict, uncaught, settle, if_won, mark_resumed, win_decision, approval_of,
  create_approval, stamp_decision, enqueue_execution, record_decision, resume_row,
}

pub mark_resumed-KeepsId : KeepsId mark_resumed
unfolding mark_resumed
mark_resumed-KeepsId r = refl

-- A row whose transition was won, with the decision stamped.
abbrev pub stamped : Row → String → Fields → Row
stamped r decision variables = record (mark_resumed r) {
  variables = set_field variables "_resume_decision" (text decision);
}

abbrev pub resume_task : String → Task
resume_task id = record { execution_id = id; kind = resume }

-- What a resume does to the database once it has won.
abbrev pub Recorded : Approver → String → String → Bool → Fields → Value → Store → Answer → Type 0
Recorded approver id decision enqueued variables node store answer =
    (r : Row) × (find_unique store.rows id ≡ some r)
    × (is_waiting r.status ≡ true)
    × (find_unique answer.1.rows id ≡ some (stamped r decision variables))
    × (row_ids answer.1.rows ≡ row_ids store.rows)
    × (answer.1.approvals ≡ store.approvals ++ approval_of approver id decision node ∷ [])
    × (answer.1.tasks ≡ (if enqueued then store.tasks ++ resume_task id ∷ [] else store.tasks))
    × (answer.0 ≡ (if enqueued then ok tt else err (uncaught "enqueue_execution")))

-- A refusal: an error, and the database as it was.
abbrev pub Refused : Store → Answer → Type 0
Refused store answer = (e : HttpError) × (answer ≡ (err e, store))

enqueue_execution-rows :
    (enqueued : Bool) (id : String) (store : Store)
    → (enqueue_execution enqueued id resume store ≡ (
      if enqueued then ok tt else err (uncaught "enqueue_execution"),
      record store { tasks = if enqueued then store.tasks ++ resume_task id ∷ [] else store.tasks },
    ))
unfolding enqueue_execution
enqueue_execution-rows true id store = refl
enqueue_execution-rows false id store = refl

-- The steps after the transition, on the row that it changed.
record_decision_lem :
    (approver : Approver) (id decision : String) (enqueued : Bool) (variables : Fields)
    (node : Value) (store : Store) (r : Row)
    → find_unique store.rows id ≡ some r
    → let answer = record_decision approver id decision enqueued variables node store in
      (find_unique answer.1.rows id
        ≡ some (record r { variables = set_field variables "_resume_decision" (text decision) }))
      × (row_ids answer.1.rows ≡ row_ids store.rows)
      × (answer.1.approvals ≡ store.approvals ++ approval_of approver id decision node ∷ [])
      × (answer.1.tasks ≡ (if enqueued then store.tasks ++ resume_task id ∷ [] else store.tasks))
      × (answer.0 ≡ (if enqueued then ok tt else err (uncaught "enqueue_execution")))
unfolding record_decision enqueue_execution create_approval stamp_decision
record_decision_lem approver id decision true variables node store r found = (
  find_unique-update id _ store.rows r (λ x. refl) found,
  row_ids-update id _ store.rows (λ x. refl),
  refl,
  refl,
  refl,
)
record_decision_lem approver id decision false variables node store r found = (
  find_unique-update id _ store.rows r (λ x. refl) found,
  row_ids-update id _ store.rows (λ x. refl),
  refl,
  refl,
  refl,
)

pub resume_row-won :
    (approver : Approver) (id decision : String) (enqueued : Bool) (variables : Fields)
    (node : Value) (store : Store)
    → (update_many (λ r. r.id == id && is_waiting r.status) mark_resumed store.rows).0 ≡ 1
    → resume_row approver id decision enqueued variables node store
      ≡ record_decision approver id decision enqueued variables node (record store {
        rows = (update_many (λ r. r.id == id && is_waiting r.status) mark_resumed store.rows).1;
      })
unfolding resume_row win_decision settle if_won
resume_row-won approver id decision enqueued variables node store won = rw won refl

pub resume_row-Recorded :
    (approver : Approver) (id decision : String) (enqueued : Bool) (variables : Fields)
    (node : Value) (store : Store)
    → Distinct (row_ids store.rows)
    → (update_many (λ r. r.id == id && is_waiting r.status) mark_resumed store.rows).0 ≡ 1
    → Recorded approver id decision enqueued variables node store
        (resume_row approver id decision enqueued variables node store)
resume_row-Recorded approver id decision enqueued variables node store d won =
    let (r, found, waiting, left) =
      update_many-won id (λ x. is_waiting x.status) mark_resumed store.rows d mark_resumed-KeepsId
        won in
    let after : Store = record store {
      rows = (update_many (λ x. x.id == id && is_waiting x.status) mark_resumed store.rows).1;
    } in
    let (now, ids, approved, queue, answer) =
      record_decision_lem approver id decision enqueued variables node after (mark_resumed r)
        left in
    let same = row_ids-update_many _ mark_resumed mark_resumed-KeepsId store.rows in
    subst (Recorded approver id decision enqueued variables node store)
      (sym (resume_row-won approver id decision enqueued variables node store won))
      (r, found, waiting, now, ids ∙ same, approved, queue, answer)

-- The two ways of the transition and what follows it.
pub resume_row-outcome :
    (approver : Approver) (id decision : String) (enqueued : Bool) (variables : Fields)
    (node : Value) (store : Store)
    → Distinct (row_ids store.rows)
    → (resume_row approver id decision enqueued variables node store ≡ (err conflict, store))
      ⊎ Recorded approver id decision enqueued variables node store
          (resume_row approver id decision enqueued variables node store)
unfolding resume_row win_decision settle if_won
resume_row-outcome approver id decision enqueued variables node store d =
    elim (update_many-cases id (λ r. is_waiting r.status) mark_resumed store.rows d
      mark_resumed-KeepsId) [
        | inl lost ↦ inl (rw (lost, update_many-zero _ mark_resumed store.rows lost))
        | inr won ↦
            inr (resume_row-Recorded approver id decision enqueued variables node store d won)
      ]

pub resume_row_cases :
    (approver : Approver) (id decision : String) (enqueued : Bool) (variables : Fields)
    (node : Value) (store : Store)
    → Distinct (row_ids store.rows)
    → Refused store (resume_row approver id decision enqueued variables node store)
      ⊎ Recorded approver id decision enqueued variables node store
          (resume_row approver id decision enqueued variables node store)
resume_row_cases approver id decision enqueued variables node store d =
    elim (resume_row-outcome approver id decision enqueued variables node store d) [
      | inl lost ↦ inl (conflict, lost)
      | inr recorded ↦ inr recorded
    ]
