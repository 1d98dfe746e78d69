-- ===== src/Executions/Lifecycle/Moves.antt =====
-- The operations against the abstract machine of statuses, and the unique columns under all of them.
use composer.Base.{
  ap, ℕ, String, ◌≡◌, refl, Bool, Option, none, some, List, Distinct, Bool-cases, ◌==◌, eq_iff, ◌⊎◌,
  inl, inr, sym, subst, ◌∙◌,
}
use composer.Executions.Store.{Row, Store, TaskKind, run, resume, find_unique, update}
use composer.Executions.Store.Queries.{row_ids, find_unique-update, find_unique-update_other}
use composer.Executions.Handlers.{create_approval, with_decision, stamp_decision}
use composer.Value.{Fields}
use composer.Executions.Creating.{new_row}
use composer.Executions.Worker.{
  Invoked, finished, paused, raised, returned, run_claimed, ended_with, execute, written,
  mark_completed, mark_waiting_approval, mark_failed, decision_of,
}
use composer.Executions.Worker.Ending.{execute-rows}
use composer.Executions.Lifecycle.{
  Guarded, insert, enqueue, record_failure, cancel, win, approve, delete, delete_bulk, deliver,
  crash, sweep_stuck, sweep_approvals, sweep_leases, Statement, guarded, stamp, Step, statement,
  run_end, Reach, here, next, Move,
}
use composer.Executions.Lifecycle.Keys.{keys, IsKeyed, IsWellFormed, KeepsKey, keys-update}
use composer.Executions.Lifecycle.Effects.{
  same, Effect, changes, adds, Effect-IsKeyed, Effect-Moved, IsKeyed-Distinct,
}
use composer.Executions.Lifecycle.Effects.Requests.{
  cancel_execution-Change, enqueue_execution-rows, fail_queued-Change, win_decision-Change,
  delete_execution-Effect, delete_bulk-Effect,
}
use composer.Executions.Lifecycle.Effects.Background.{claim-Change, crash-Change}
use composer.Executions.Lifecycle.Effects.Sweeps.{
  sweep_stuck-Change, sweep_approvals-Change, sweep_expired_leases-Change,
}

Guarded-Effect : {s t : Store} → Distinct (row_ids s.rows) → Guarded s t → Effect s.rows t.rows
unfolding new_row create_approval
Guarded-Effect {s} d (insert caller request now fresh free) = adds _ fresh free refl
Guarded-Effect {s} d (enqueue accepted id kind) =
    subst (Effect s.rows) (sym (enqueue_execution-rows accepted id kind s)) (changes same)
Guarded-Effect {s} d (record_failure saved id now why) =
    changes (fail_queued-Change saved id now why s)
Guarded-Effect {s} d (cancel caller id now seen) =
    changes (cancel_execution-Change caller id now seen s)
Guarded-Effect {s} d (win id) = changes (win_decision-Change id s)
Guarded-Effect {s} d (approve approver id decision node) = changes same
Guarded-Effect {s} d (delete caller id seen) = delete_execution-Effect caller id seen s
Guarded-Effect {s} d (delete_bulk caller all_in_scope requested seen) =
    delete_bulk-Effect caller all_in_scope requested seen s
Guarded-Effect {s} d (deliver unlocked id worker now handler_now seconds) =
    changes (claim-Change unlocked id worker now handler_now seconds s d)
Guarded-Effect {s} d (crash id kind now started ended seen why saved) =
    changes (crash-Change id kind now started ended seen why saved s)
Guarded-Effect {s} d (sweep_stuck writes after now) =
    changes (sweep_stuck-Change writes after now s d)
Guarded-Effect {s} d (sweep_approvals parse writes hours now) =
    changes (sweep_approvals-Change parse writes hours now s d)
Guarded-Effect {s} d (sweep_leases writes enqueues attempts now) =
    changes (sweep_expired_leases-Change writes enqueues attempts now s d)

guarded_moves :
    {s t : Store} (id : String) (r r' : Row)
    → IsWellFormed s
    → Guarded s t
    → find_unique s.rows id ≡ some r
    → find_unique t.rows id ≡ some r'
    → (r' ≡ r) ⊎ Move r.status r'.status
guarded_moves {s} id r r' h g found found' =
    let d = IsKeyed-Distinct s.rows h in Effect-Moved (Guarded-Effect d g) d id r r' found found'

-- Another decision over other variables, and nothing else.
abbrev pub Restamped : Row → Row → Type 0
Restamped r r' =
    (decision : String) × (variables : Fields) × (r' ≡ with_decision decision variables r)

with_decision-KeepsKey :
    (decision : String) (variables : Fields) → KeepsKey (with_decision decision variables)
with_decision-KeepsKey decision variables r = refl

stamp_moves :
    (s : Store) (stamped decision : String) (variables : Fields) (id : String) (r r' : Row)
    → find_unique s.rows id ≡ some r
    → find_unique (stamp_decision stamped decision variables s).rows id ≡ some r'
    → (r' ≡ r) ⊎ Restamped r r'
unfolding stamp_decision
stamp_moves s stamped decision variables id r r' found found' = elim (Bool-cases (id == stamped)) [
  | inl it ↦
      let now =
        find_unique-update id (with_decision decision variables) s.rows r (λ x. refl) found in
      let there =
        subst (λ i. find_unique (update i (with_decision decision variables) s.rows) id ≡ some r')
          (sym ((eq_iff id stamped).0 it)) found' in
      inr (decision, variables, cc (now, there))
  | inr other ↦ inl (
      cc (
        find_unique-update_other stamped id (with_decision decision variables) s.rows (λ x. refl)
            other,
        found,
        found',
      ))
]

-- In a table with distinct keys, every operation on the executions but the end of a run moves the rows that
-- it leaves in the table along the abstract machine: a row is as it was, or its variables alone have been
-- replaced by others with a decision, or it was active and has been started, canceled or failed. The
-- statements of a resume request and of a confirmed link are taken one by one, with anything in between;
-- what a handler read earlier may be stale; a sweep is taken with no other request between its reading and
-- its writes.
pub Statement-refines :
    {s t : Store} (id : String) (r r' : Row)
    → IsWellFormed s
    → Statement s t
    → find_unique s.rows id ≡ some r
    → find_unique t.rows id ≡ some r'
    → (r' ≡ r) ⊎ Restamped r r' ⊎ Move r.status r'.status
Statement-refines id r r' h (guarded g) found found' =
    elim (guarded_moves id r r' h g found found') [
      | inl kept ↦ inl kept
      | inr moved ↦ inr (inr moved)
    ]
Statement-refines {s} id r r' h (stamp stamped decision variables) found found' =
    elim (stamp_moves s stamped decision variables id r r' found found') [
      | inl kept ↦ inl kept
      | inr other ↦ inr (inl other)
    ]

pub written-KeepsKey : (now : ℕ) (invoked : Invoked) → KeepsKey (written now invoked)
unfolding written mark_completed mark_waiting_approval mark_failed
written-KeepsKey now (finished final) r = refl
written-KeepsKey now (paused info vars since none) r = refl
written-KeepsKey now (paused info vars since (some why)) r = refl
written-KeepsKey now (raised why) r = refl

keys-execute :
    (id : String) (now : ℕ) (started ended : Bool) (row : Option Row) (invoked : Invoked)
    (s : Store)
    → keys (execute id now started ended row invoked s).rows ≡ keys s.rows
unfolding execute
keys-execute id now started ended none invoked s = refl
keys-execute id now started ended (some row) invoked s =
    ap keys (execute-rows id now started ended row invoked s)
    ∙ keys-update id (written now invoked) s.rows (written-KeepsKey now invoked)

keys-run_claimed :
    (id : String) (kind : TaskKind) (now : ℕ) (started ended : Bool) (seen : List Row)
    (invoked : Invoked) (s : Store)
    → keys (run_claimed id kind now started ended seen (returned invoked) s).1.rows ≡ keys s.rows
unfolding run_claimed ended_with
keys-run_claimed id run now started ended seen invoked s =
    keys-execute id now started ended (find_unique seen id) invoked s
keys-run_claimed id resume now started ended seen invoked s =
    elim (Bool-cases (decision_of (find_unique seen id))) [
      | inl decided ↦ rw decided (keys-execute id now started ended (find_unique seen id) invoked s)
      | inr undecided ↦ rw undecided refl
    ]

pub Statement-IsWellFormed : {s t : Store} → Statement s t → IsWellFormed s → IsWellFormed t
unfolding stamp_decision
Statement-IsWellFormed {s} (guarded g) h =
    Effect-IsKeyed (Guarded-Effect (IsKeyed-Distinct s.rows h) g) h
Statement-IsWellFormed {s} (stamp id decision variables) h =
    subst IsKeyed
      (sym (
        keys-update id (with_decision decision variables) s.rows
          (with_decision-KeepsKey decision variables)))
      h

pub Step-IsWellFormed : {s t : Store} → Step s t → IsWellFormed s → IsWellFormed t
Step-IsWellFormed (statement st) h = Statement-IsWellFormed st h
Step-IsWellFormed {s} (run_end id kind now started ended seen invoked) h =
    subst IsKeyed (sym (keys-run_claimed id kind now started ended seen invoked s)) h

-- Through every sequence of operations from a table where it holds, no two executions have one id, and no
-- two executions of one workflow have one idempotency key. What a handler read earlier may be stale; a
-- sweep writes to the rows that it has just read.
pub Reach-IsWellFormed : {s t : Store} → Reach s t → IsWellFormed s → IsWellFormed t
Reach-IsWellFormed here h = h
Reach-IsWellFormed (next before st) h = Step-IsWellFormed st (Reach-IsWellFormed before h)
