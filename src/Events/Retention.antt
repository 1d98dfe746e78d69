-- ===== src/Events/Retention.antt =====
-- The retention sweep under a running execution.
use composer.Base.{
  ap, ℕ, suc, ◌+◌, ◌≤◌, ◌<◌, String, ◌≡◌, refl, Bool, true, not, ◌&&◌, List, [], ◌∷◌, map, length,
  keep, all, ltb, leb, eq_iff, arith, Bool-cases, inl, inr, ◌∙◌,
}
use composer.Events.{
  ExecutionEvent, EventRow, belongs, count, taken, append, create_event, row_of_event, after_seq,
  event_of, list_since, cutoff, sort_by_seq, sweep_old_execution_events,
}
use composer.Events.Log.{
  log, IsNumbered, rows_since-log, length-log, length-sort, keep-append, all-numbered,
}

abbrev unread : String → ℕ → List EventRow → List EventRow
unread id cursor rows = keep (λ row. belongs id row && after_seq cursor row) rows

unread-keep :
    (test : EventRow → Bool) (id : String) (cursor : ℕ) (rows : List EventRow)
    → unread id cursor rows ≡ []
    → unread id cursor (keep test rows) ≡ []
unread-keep test id cursor [] h = refl
unread-keep test id cursor (row ∷ rows) h = ground (arith, unread-keep test id cursor rows)

sort-nil : (rows : List EventRow) → sort_by_seq rows ≡ [] → rows ≡ []
unfolding sort_by_seq
sort-nil [] h = refl
sort-nil (row ∷ rows) h = ground (arith, ap length h, length-sort (row ∷ rows))

keep-none :
    (cursor : ℕ) (rows : List EventRow)
    → all (λ row. leb row.seq cursor) rows ≡ true
    → keep (after_seq cursor) rows ≡ []
keep-none cursor [] h = refl
keep-none cursor (row ∷ rows) h = ground (arith, keep-none cursor rows)

unread-all :
    (id : String) (rows : List EventRow) → IsNumbered rows → unread id (count id rows) rows ≡ []
unread-all id rows h = sort-nil (unread id (count id rows) rows) (
    rows_since-log id (count id rows) rows
    ∙ keep-none (count id rows) (log id rows)
        (all-numbered 0 (count id rows) (log id rows) (h id) (omega (arith, length-log id rows))))

new_passed :
    (cursor : ℕ) (row : EventRow)
    → row.seq ≤ cursor
    → unread row.execution_id cursor (row ∷ []) ≡ []
new_passed cursor row le = ground (arith, eq_iff row.execution_id row.execution_id)

-- An append after some rows of its execution are gone, in a table whose rows a cursor has passed.
append-unread :
    (event : ExecutionEvent) (now cursor : ℕ) (rows : List EventRow)
    → unread event.execution_id cursor rows ≡ []
    → count event.execution_id rows < cursor
    → unread event.execution_id cursor (append event now rows rows).1 ≡ []
unfolding append create_event
append-unread event now cursor rows h fewer =
    let id = event.execution_id in
    let row = row_of_event event (count id rows + 1) now in
    elim (Bool-cases (taken id (count id rows + 1) rows)) [
      | inl gone ↦ rw gone h
      | inr free ↦ rw free (
          keep-append (λ r. belongs id r && after_seq cursor r) rows (row ∷ [])
          ∙ cc (h, new_passed cursor row (omega (arith, fewer))))
    ]

-- The retention sweep removes an event of an execution that goes on. The next event of the execution is
-- never read by a client that had got all events before the sweep: a reading at its cursor brings nothing.
pub append_after_retention :
    (event : ExecutionEvent) (days swept_at now : ℕ) (now_iso : String) (rows : List EventRow)
    → let swept = (sweep_old_execution_events (suc days) swept_at rows).1 in
      IsNumbered rows
      → count event.execution_id swept < count event.execution_id rows
      → list_since now_iso event.execution_id
          (count event.execution_id rows)
          (append event now swept swept).1
        ≡ []
unfolding list_since sort_by_seq sweep_old_execution_events
append_after_retention event days swept_at now now_iso rows h fewer =
    let id = event.execution_id in
    let recent = λ (row : EventRow). not (ltb row.created_at (cutoff (suc days) swept_at)) in
    let none_left = unread-keep recent id (count id rows) rows (unread-all id rows h) in
    ap (λ found. map (event_of now_iso) (sort_by_seq found))
      (append-unread event now (count id rows) (keep recent rows) none_left fewer)
