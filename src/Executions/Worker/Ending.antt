-- ===== src/Executions/Worker/Ending.antt =====
-- The end of a run against what other requests committed while it ran.
use composer.Base.{
  ap, ℕ, String, ◌≡◌, refl, Bool, true, false, Option, none, some, List, Distinct, arith,
  Bool-cases, ◌⊎◌, inl, inr, ok, err, sym, subst, ◌∙◌,
}
use composer.State.{WorkflowStateDict}
use composer.Executions.Store.{Row, Store, run, is_running, completed, find_unique, update}
use composer.Executions.Store.Queries.{
  row_ids, KeepsId, find_unique-update, update_many-won, update_many-lost, update_many-zero,
  count-update_many,
}
use composer.Executions.Handlers.{Caller, server_error, mark_canceled, cancel_execution}
use composer.Executions.Handlers.Races.{cancel_execution_correct}
use composer.Executions.Worker.{
  Invoked, finished, paused, raised, written, mark_failed, mark_completed, mark_waiting_approval,
  emit, execute, already_terminal, done, crash_handler, returned, ended_with, run_claimed,
}

mark_failed-KeepsId : (now : ℕ) (why : String) → KeepsId (mark_failed now why)
unfolding mark_failed
mark_failed-KeepsId now why r = refl

-- A crash that is recorded, or one whose row has left `running`.
abbrev pub CrashOutcome : String → ℕ → String → Store → Row → Type 0
CrashOutcome id now why store r =
    ((is_running r.status ≡ true)
      × ((crash_handler id now why true store).0 ≡ err server_error)
      × (find_unique (crash_handler id now why true store).1.rows id
          ≡ some (mark_failed now why r)))
    ⊎ ((is_running r.status ≡ false)
        × (crash_handler id now why true store ≡ (ok already_terminal, store)))

-- The crash handler whose write goes through marks a row that is still running failed and answers a
-- server error; a row that has left `running` stays as it is, and the delivery counts as handled.
pub crash_handler_correct :
    (id : String) (now : ℕ) (why : String) (store : Store) (r : Row)
    → Distinct (row_ids store.rows)
    → find_unique store.rows id ≡ some r
    → CrashOutcome id now why store r
unfolding crash_handler
crash_handler_correct id now why store r d found = elim (Bool-cases (is_running r.status)) [
  | inr left ↦
      let none_hit =
        update_many-lost id (λ x. is_running x.status) (mark_failed now why) store.rows r d found
          left in
      let same = update_many-zero _ (mark_failed now why) store.rows none_hit in
      inr (left, rw (none_hit, same))
  | inl still ↦
      let hit =
        count-update_many id (λ x. is_running x.status) (mark_failed now why) store.rows d
        ∙ ground arith in
      let (r', found', passed, now_there) =
        update_many-won id (λ x. is_running x.status) (mark_failed now why) store.rows d
          (mark_failed-KeepsId now why) hit in
      let own : r' ≡ r = cc (found, found') in
      inl (
        still,
        rw (hit, crash_handler),
        subst
            (λ (x : Row).
              find_unique (crash_handler id now why true store).1.rows id
              ≡ some (mark_failed now why x))
            own now_there,
      )
]

written-KeepsId : (now : ℕ) (invoked : Invoked) → KeepsId (written now invoked)
unfolding written mark_completed mark_waiting_approval mark_failed
written-KeepsId now (finished final) r = refl
written-KeepsId now (paused info vars since none) r = refl
written-KeepsId now (paused info vars since (some why)) r = refl
written-KeepsId now (raised why) r = refl

-- Emitting an event leaves the rows alone.
emit-rows : (b : Bool) (id : String) (store : Store) → (emit b id store).rows ≡ store.rows
unfolding emit
emit-rows true id store = refl
emit-rows false id store = refl

pub execute-rows :
    (id : String) (now : ℕ) (started ended : Bool) (row : Row) (invoked : Invoked) (store : Store)
    → (execute id now started ended (some row) invoked store).rows
      ≡ update id (written now invoked) store.rows
unfolding execute
execute-rows id now started ended row invoked store =
    emit-rows ended id _
    ∙ ap (λ rows. update id (written now invoked) rows) (emit-rows started id store)

-- A run that ends without a crash writes its result over the row of its execution as the row then is,
-- whatever status another request gave it in the meantime.
pub run_claimed_overwrites :
    (id : String) (now : ℕ) (started ended : Bool) (seen : List Row) (loaded : Row)
    (invoked : Invoked) (store : Store) (r : Row)
    → find_unique seen id ≡ some loaded
    → find_unique store.rows id ≡ some r
    → ((run_claimed id run now started ended seen (returned invoked) store).0 ≡ ok done)
      × (find_unique (run_claimed id run now started ended seen (returned invoked) store).1.rows id
          ≡ some (written now invoked r))
unfolding run_claimed ended_with
run_claimed_overwrites id now started ended seen loaded invoked store r read found = (
  refl,
  subst
      (λ (x : Option Row).
        find_unique (execute id now started ended x invoked store).rows id
        ≡ some (written now invoked r))
      (sym read)
      (ap (λ rows. find_unique rows id) (execute-rows id now started ended loaded invoked store)
        ∙ find_unique-update id (written now invoked) store.rows r (written-KeepsId now invoked)
            found),
)

-- An execution that was canceled while its run was under way ends completed when the run reaches its
-- end: the cancel request succeeded and its status is lost.
pub cancel_then_complete :
    (caller : Caller) (id : String) (at now : ℕ) (started ended : Bool) (seen seen' : List Row)
    (loaded : Row) (final : WorkflowStateDict) (store : Store)
    → Distinct (row_ids store.rows)
    → find_unique seen' id ≡ some loaded
    → (cancel_execution caller id at seen store).0 ≡ ok tt
    → (r : Row) × (find_unique
          (run_claimed id run now started ended seen'
            (returned (finished final))
            (cancel_execution caller id at seen store).1).1.rows
          id
        ≡ some r)
      × (r.status ≡ completed)
unfolding written mark_completed
cancel_then_complete caller id at now started ended seen seen' loaded final store d read h =
    let (s, was, may, r, found, active, left) =
      cancel_execution_correct caller id at seen store d h in
    let (handled, over) =
      run_claimed_overwrites id now started ended seen' loaded (finished final)
        (cancel_execution caller id at seen store).1 (mark_canceled at r) read left in
    (_, over, refl)
