-- ===== src/Executions/Lifecycle/Final.antt =====
-- An execution that has ended stays so until it is deleted, but for the end of a run.
use composer.Base.{
  ℕ, Bool, Option, none, List, Bool-cases, ◌==◌, String, ◌≡◌, refl, false, some, Option-cases, inl,
  inr, ◌∙◌, ap,
}
use composer.Value.{Fields, text, set_field}
use composer.Executions.Handlers.{with_decision}
use composer.Executions.Store.{Row, Store, TaskKind, run, resume, is_active, find_unique}
use composer.Executions.Worker.{
  Invoked, returned, run_claimed, ended_with, execute, written, decision_of,
}
use composer.Executions.Worker.Ending.{execute-rows}
use composer.Executions.Store.Queries.{find_unique-update_other}
use composer.Executions.Lifecycle.{
  statement, run_end, other_run, Reach, here, next, Life, begin, live,
}
use composer.Executions.Lifecycle.Keys.{Key, IsWellFormed}
use composer.Executions.Lifecycle.Effects.{from_active}
use composer.Executions.Lifecycle.Moves.{written-KeepsKey, Statement-refines, Reach-IsWellFormed}

pub Life-Reach : {id : String} {s t : Store} → Life id s t → Reach s t
Life-Reach begin = here
Life-Reach (live before st there) = next (Life-Reach before) (statement st)
Life-Reach (other_run other kind now started ended seen invoked before apart) =
    next (Life-Reach before) (run_end other kind now started ended seen invoked)

-- The end of a run writes to the row of its own execution alone.
execute_other :
    (id other : String) (now : ℕ) (started ended : Bool) (row : Option Row) (invoked : Invoked)
    (s : Store)
    → (id == other) ≡ false
    → find_unique (execute other now started ended row invoked s).rows id ≡ find_unique s.rows id
unfolding execute
execute_other id other now started ended none invoked s apart = refl
execute_other id other now started ended (some row) invoked s apart =
    ap (λ rows. find_unique rows id) (execute-rows other now started ended row invoked s)
    ∙ find_unique-update_other other id (written now invoked) s.rows
        (λ x. ap (λ (k : Key). k.id) (written-KeepsKey now invoked x)) apart

pub run_end_other :
    (id other : String) (kind : TaskKind) (now : ℕ) (started ended : Bool) (seen : List Row)
    (invoked : Invoked) (s : Store)
    → (id == other) ≡ false
    → find_unique (run_claimed other kind now started ended seen (returned invoked) s).1.rows id
      ≡ find_unique s.rows id
unfolding run_claimed ended_with
run_end_other id other run now started ended seen invoked s apart =
    execute_other id other now started ended (find_unique seen other) invoked s apart
run_end_other id other resume now started ended seen invoked s apart =
    elim (Bool-cases (decision_of (find_unique seen other))) [
      | inl decided ↦
          rw decided
            (execute_other id other now started ended (find_unique seen other) invoked s apart)
      | inr undecided ↦ rw undecided refl
    ]

-- The row with other variables, if any, and nothing else changed.
abbrev pub KeptBut : Row → Row → Type 0
KeptBut r r' = (variables : Fields) × (r' ≡ record r { variables = variables })

-- In a table with distinct keys, through every sequence of operations in which no run of the execution
-- ends, an execution that has completed, failed or been canceled is the same row for as long as it is not
-- deleted, but for its variables, which a decision under way may still overwrite. The statements of a
-- resume request and of a confirmed link are taken one by one, with anything in between; what a handler
-- read earlier may be stale; a sweep is taken with no other request between its reading and its writes.
pub ended_stays :
    {s : Store} (id : String) {t : Store} (r : Row)
    → IsWellFormed s
    → find_unique s.rows id ≡ some r
    → is_active r.status ≡ false
    → Life id s t
    → (r' : Row) × (find_unique t.rows id ≡ some r') × KeptBut r r'
ended_stays id r h found ended begin = (r, found, (r.variables, refl))
ended_stays {s} id {t} r h found ended (live {u} before st there) =
    elim (Option-cases (find_unique t.rows id)) [
      | inl gone ↦ absurd (there gone)
      | inr (r', found') ↦
          let (q, still, (variables, same)) = ended_stays id r h found ended before in
          elim (Statement-refines id q r' (Reach-IsWellFormed (Life-Reach before) h) st still
            found') [
              | inl kept ↦ (r', found', (variables, kept ∙ same))
              | inr (inl (decision, others, stamped)) ↦ (
                r',
                found',
                (
                  set_field others "_resume_decision" (text decision),
                  stamped ∙ ap (with_decision decision others) same,
                ),
              )
              | inr (inr moved) ↦ absurd (
                  let clash : ⊥ =
                    cc (from_active moved, ap (λ (x : Row). is_active x.status) same, ended) in
                  clash)
            ]
    ]
ended_stays id r h found ended
      (other_run {t} other kind now started sent seen invoked before apart) =
    let (q, still, kept) = ended_stays id r h found ended before in
    (q, run_end_other id other kind now started sent seen invoked t apart ∙ still, kept)
