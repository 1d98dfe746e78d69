-- ===== src/Executions/Worker.antt =====
-- The push handler `claim_and_run_execution` (src/api/internal.py) and what the runs that it drives write to
-- the row (src/engine/langgraph_executor.py). What a run does in between is LangGraph's: an `Invoked`.
pub mod Claiming
pub mod Ending
use composer.Base.{
  ℕ, zero, suc, ◌+◌, String, Bool, true, false, not, ◌&&◌, ◌||◌, Option, none, some, List, [], ◌∷◌,
  ◌++◌, ltb, ◌==◌, if◌then◌else◌, Result, ok, err,
}
use composer.Value.{
  Value, Fields, Items, null, text, obj, empty, field, field_at, set_field, truthy,
}
use composer.State.{WorkflowStateDict}
use composer.Executions.Store.{
  Status, running, waiting_approval, completed, failed, is_active, is_running, ErrorText,
  crash_text, Row, TaskKind, run, resume, Store, find_unique, update_many, update,
}
use composer.Executions.Handlers.{HttpError, unprocessable, server_error}

-- `lease_expires_at IS NULL OR lease_expires_at < now()`
unfoldable pub lease_free : ℕ → Option ℕ → Bool
lease_free now none = true
lease_free now (some expires) = ltb expires now

-- The claim's predicate; `now` is the database's clock.
unfoldable pub claimable : ℕ → Row → Bool
unfolding lease_free
claimable now row = is_active row.status && lease_free now row.lease_expires_at

unfoldable pub mark_claimed : String → ℕ → Row → Row
mark_claimed worker expires row = record row {
  status = running;
  lease_owner = some worker;
  lease_expires_at = some expires;
  delivery_attempts = suc row.delivery_attempts;
}

-- The claim transaction: the row is selected if it is claimable and no other transaction has it locked
-- (SKIP LOCKED), and updated by its id.
unfoldable pub claim_selected : Bool → String → String → ℕ → Option Row → Store → Bool × Store
unfolding mark_claimed update
claim_selected true id worker expires (some row) store =
    (true, record store { rows = update id (mark_claimed worker expires) store.rows })
claim_selected _ id worker expires _ store = (false, store)

-- `SELECT ... WHERE id = $1 AND status = ANY($2) AND ...`
unfoldable pub selected : ℕ → Option Row → Option Row
unfolding claimable
selected now none = none
selected now (some row) = if claimable now row then some row else none

-- `lease_expires` is the handler's clock plus the lease's length.
unfoldable pub claim : Bool → String → String → ℕ → ℕ → ℕ → Store → Bool × Store
unfolding claim_selected selected
claim unlocked id worker now handler_now lease_seconds store =
    claim_selected unlocked id worker (handler_now + lease_seconds)
      (selected now (find_unique store.rows id)) store

-- What `compiled.ainvoke` and `compiled.aget_state` gave: a final state, a pause with the payload of the
-- interrupt and the error of the approval mail if it raised, or an exception before the end.
pub data Invoked : Type 0 where
  finished : WorkflowStateDict → Invoked
  paused : Fields → Fields → String → Option String → Invoked
  raised : String → Invoked

-- The output that is stored, by the number of End nodes that were reached.
unfoldable pub output_value : Fields → Fields → Value
unfolding field_at
output_value empty vars = elim (field_at vars "lastOutput") [ none ↦ null | some v ↦ v ]
output_value (field k v empty) vars = v
output_value (field k v (field k' v' rest)) vars = obj (field k v (field k' v' rest))

unfoldable pub mark_completed : ℕ → WorkflowStateDict → Row → Row
unfolding output_value
mark_completed now final row = record row {
  status = completed;
  output = some (output_value final.final_outputs final.variables);
  variables = final.variables;
  completed_at = some now;
}

-- `pending_info.get(key)` as a value
unfoldable pub get_or_null : Fields → String → Value
unfolding field_at
get_or_null info key = elim (field_at info key) [ none ↦ null | some v ↦ v ]

unfoldable pub mark_waiting_approval : Fields → Fields → String → Row → Row
unfolding set_field get_or_null
mark_waiting_approval info vars since row = record row {
  status = waiting_approval;
  variables =
      set_field
        (set_field (set_field vars "_pending_approval_node" (get_or_null info "node_id"))
          "_pending_approval_prompt" (get_or_null info "prompt"))
        "_pending_approval_since" (text since);
}

unfoldable pub mark_failed : ℕ → String → Row → Row
mark_failed now why row = record row {
  status = failed;
  error = some (crash_text why);
  completed_at = some now;
}

-- What the rest of `run` and `resume` writes to the row after `ainvoke`.
unfoldable pub written : ℕ → Invoked → Row → Row
unfolding mark_completed mark_waiting_approval mark_failed
written now (finished final) row = mark_completed now final row
written now (paused info vars since none) row = mark_waiting_approval info vars since row
written now (paused info vars since (some why)) row =
    mark_failed now why (mark_waiting_approval info vars since row)
written now (raised why) row = mark_failed now why row

-- `_emit`, which never raises: the event is appended unless the event store fails.
unfoldable pub emit : Bool → String → Store → Store
emit true id store = record store { events = store.events ++ id ∷ [] }
emit false id store = store

-- `run` and `resume` up to the end: nothing if the row is gone, and otherwise updates by id, with no
-- guard on the status.
unfoldable pub execute : String → ℕ → Bool → Bool → Option Row → Invoked → Store → Store
unfolding written emit update
execute id now started ended none invoked store = store
execute id now started ended (some row) invoked store =
    let begun = emit started id store in
    emit ended id (record begun { rows = update id (written now invoked) begun.rows })

pub data Reply : Type 0 where
  already_claimed already_terminal done : Reply

abbrev pub Handled : Type 0
Handled = Result HttpError Reply × Store

-- The row is marked failed only if it is still running, unless the write raises as well.
unfoldable pub crash_handler : String → ℕ → String → Bool → Store → Handled
unfolding update_many mark_failed
crash_handler id now why false store = (err server_error, store)
crash_handler id now why true store =
    let (n, rows) =
      update_many (λ r. r.id == id && is_running r.status) (mark_failed now why) store.rows in
    (elim n [ zero ↦ ok already_terminal | suc m ↦ err server_error ], record store { rows = rows })

-- `_resume_decision` of the claimed row, if it is there and truthy.
unfoldable pub decision_of : Option Row → Bool
unfolding field_at
decision_of none = false
decision_of (some row) = elim (field_at row.variables "_resume_decision") [
  | none ↦ false
  | some v ↦ truthy v
]

-- How a claimed run ends: the executor returns, or an exception leaves it.
pub data Ended : Type 0 where
  returned : Invoked → Ended
  crashed : String → Bool → Ended

unfoldable pub ended_with : String → ℕ → Bool → Bool → Option Row → Ended → Store → Handled
unfolding execute crash_handler
ended_with id now started ended row (returned invoked) store =
    (ok done, execute id now started ended row invoked store)
ended_with id now started ended row (crashed why saved) store = crash_handler id now why saved store

-- The handler after the claim. `seen` holds the rows that it reads when the run begins, and `store` the
-- database at the end of the run: other requests commit in between.
unfoldable pub run_claimed :
    String → TaskKind → ℕ → Bool → Bool → List Row → Ended → Store → Handled
unfolding ended_with decision_of
run_claimed id run now started ended seen how store =
    ended_with id now started ended (find_unique seen id) how store
run_claimed id resume now started ended seen how store =
    if decision_of (find_unique seen id)
    then ended_with id now started ended (find_unique seen id) how store
    else (err unprocessable, store)
