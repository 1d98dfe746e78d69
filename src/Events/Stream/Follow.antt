-- ===== src/Events/Stream/Follow.antt =====
-- A client that follows an execution while other requests append to the table.
use composer.Base.{
  ap, ℕ, ◌≤◌, String, ◌≡◌, refl, Bool, true, false, not, ◌||◌, List, [], ◌∷◌, ◌++◌, map, length,
  length-append, keep, arith, Bool-cases, inl, inr, sym, subst, ◌∙◌,
}
use composer.Executions.Store.{Row}
use composer.Events.{
  ExecutionEvent, EventRow, belongs, count, persist_and_notify, after_seq, rows_since, event_of,
}
use composer.Events.Log.{log, NumberedFrom, IsNumbered, rows_since-log, length-log, keep-append}
use composer.Events.Append.{
  map-append, next_row, if_own, rows_since-next, persist-cases, persist-IsNumbered,
}
use composer.Events.Stream.{Session, deliver, poll, live_turn, connect, snapshot, is_terminal}
use composer.Events.Stream.Socket.{
  view, view_row, keep-twice, numbered-keep, length-keep, poll-open, poll-closed, GotFirst,
  deliver-GotFirst, append_assoc,
}

-- The state that clients and other requests share: the table, and the client's connection.
pub record Watched : Type 0 where
  pub rows : List EventRow
  pub session : Session

-- What can happen while the client follows the execution `id`: any request appends an event of any
-- execution, with a count that is older than its write; the live loop wakes; the client connects again.
pub data Follows (id : String) (start : Watched) : Watched → Type 0 where
  start_here : Follows id start start
  appended :
      {st : Watched} (configured : Bool) (event : ExecutionEvent) (now : ℕ) (seen : List EventRow)
      → Follows id start st
      → count event.execution_id seen ≤ count event.execution_id st.rows
      → Follows id start (record st { rows = persist_and_notify configured event now seen st.rows })
  woken :
      {st : Watched} (sends : ExecutionEvent → Bool) (notified keepalive_sent : Bool)
      (now_iso : String)
      → Follows id start st
      → Follows id start (record st {
        session = live_turn sends notified keepalive_sent now_iso id st.rows st.session;
      })
  connected :
      {st : Watched} (sends : ExecutionEvent → Bool) (now_iso : String) (execution : Row)
      → Follows id start st
      → execution.id ≡ id
      → Follows id start
          (record st { session = connect sends now_iso execution st.rows st.session })

-- The client has got a first part of the events after `cursor`, and its own cursor is at the end of it.
pub record InStep (id : String) (cursor : ℕ) (st : Watched) : Type 0 where
  pub numbered : IsNumbered st.rows
  pub known : st.session.last_seq ≤ count id st.rows
  pub from : cursor ≤ st.session.last_seq
  pub shown :
      map view st.session.sent ++ map view_row (rows_since id st.session.last_seq st.rows)
      ≡ map view_row (rows_since id cursor st.rows)

-- A session that is not written but for its flag stays in step.
InStep-same :
    (id : String) (cursor : ℕ) (st : Watched) (session : Session)
    → session.sent ≡ st.session.sent
    → session.last_seq ≡ st.session.last_seq
    → InStep id cursor st
    → InStep id cursor (record st { session = session })
InStep-same id cursor st session sent last h = record {
  numbered = h.numbered;
  known = omega (arith, h.known, last);
  from = omega (arith, h.from, last);
  shown = rw sent (rw last h.shown);
}

log-numbered :
    (id : String) (cursor : ℕ) (rows : List EventRow)
    → IsNumbered rows
    → cursor ≤ count id rows
    → NumberedFrom cursor (rows_since id cursor rows)
log-numbered id cursor rows h le =
    subst (NumberedFrom cursor) (sym (rows_since-log id cursor rows)) (
      numbered-keep 0 cursor (log id rows) (h id) (omega arith)
        (omega (arith, le, length-log id rows)))

rows_since-twice :
    (id : String) (cursor later : ℕ) (rows : List EventRow)
    → cursor ≤ later
    → keep (after_seq later) (rows_since id cursor rows) ≡ rows_since id later rows
rows_since-twice id cursor later rows le =
    ap (keep (after_seq later)) (rows_since-log id cursor rows)
    ∙ keep-twice cursor later (log id rows) le
    ∙ sym (rows_since-log id later rows)

-- A session that has got a first part of what its cursor leaves stays in step.
InStep-GotFirst :
    (id : String) (cursor : ℕ) (st : Watched) (after : Session)
    → GotFirst (rows_since id st.session.last_seq st.rows) st.session after
    → InStep id cursor st
    → InStep id cursor (record st { session = after })
InStep-GotFirst id cursor st after got h =
    let left = rows_since id st.session.last_seq st.rows in
    record {
      numbered = h.numbered;
      known = omega (
        arith,
        got.2,
        h.known,
        length-log id st.rows,
        ap length (rows_since-log id st.session.last_seq st.rows),
        length-keep 0 st.session.last_seq (log id st.rows) (h.numbered id) (omega arith)
            (omega (arith, h.known, length-log id st.rows)),
      );
      from = omega (arith, h.from, got.1);
      shown =
          ap (λ rows. map view after.sent ++ map view_row rows)
            (sym (rows_since-twice id st.session.last_seq after.last_seq st.rows got.1))
          ∙ got.0
          ∙ h.shown;
    }

InStep-poll :
    (id : String) (cursor : ℕ) (st : Watched) (sends : ExecutionEvent → Bool) (now_iso : String)
    → InStep id cursor st
    → InStep id cursor (record st { session = poll sends now_iso id st.rows st.session })
InStep-poll id cursor st sends now_iso h =
    let goal = λ (session : Session). InStep id cursor (record st { session = session }) in
    elim (Bool-cases st.session.closed) [
      | inl closed ↦ subst goal (sym (poll-closed sends now_iso id st.rows st.session closed)) h
      | inr still ↦
          let left = rows_since id st.session.last_seq st.rows in
          subst goal (sym (poll-open sends now_iso id st.rows st.session still)) (
            InStep-GotFirst id cursor st (deliver sends (map (event_of now_iso) left) st.session)
              (deliver-GotFirst sends now_iso st.session left
                (log-numbered id st.session.last_seq st.rows h.numbered h.known))
              h)
    ]

InStep-live :
    (id : String) (cursor : ℕ) (st : Watched) (sends : ExecutionEvent → Bool)
    (notified keepalive_sent : Bool) (now_iso : String)
    → InStep id cursor st
    → InStep id cursor (record st {
      session = live_turn sends notified keepalive_sent now_iso id st.rows st.session;
    })
unfolding live_turn
InStep-live id cursor st sends notified keepalive_sent now_iso h =
    let after = record st { session = poll sends now_iso id st.rows st.session } in
    let polled = InStep-poll id cursor st sends now_iso h in
    elim (Bool-cases (notified || keepalive_sent)) [
      | inl on ↦ rw on polled
      | inr off ↦
          rw off
            (InStep-same id cursor after (record after.session { closed = true }) refl refl polled)
    ]

InStep-connect :
    (id : String) (cursor : ℕ) (st : Watched) (sends : ExecutionEvent → Bool) (now_iso : String)
    (execution : Row)
    → execution.id ≡ id
    → InStep id cursor st
    → InStep id cursor (record st { session = connect sends now_iso execution st.rows st.session })
unfolding connect
InStep-connect id cursor st sends now_iso execution e h =
    let opened = record st.session { closed = false } in
    let replayed =
      InStep-poll id cursor (record st { session = opened }) sends now_iso
        (InStep-same id cursor st opened refl refl h) in
    elim (Bool-cases (not (sends (snapshot now_iso execution)) || is_terminal execution.status)) [
      | inl ends ↦
          rw ends (InStep-same id cursor st (record st.session { closed = true }) refl refl h)
      | inr on ↦ rw on (rw e replayed)
    ]

count-append : (id : String) (rows more : List EventRow) → count id rows ≤ count id (rows ++ more)
count-append id rows more = omega (
  arith,
  ap length (keep-append (belongs id) rows more),
  length-append (keep (belongs id) rows) (keep (belongs id) more),
)

InStep-append :
    (id : String) (cursor : ℕ) (st : Watched) (event : ExecutionEvent) (now : ℕ)
    → InStep id cursor st
    → IsNumbered (st.rows ++ next_row event now st.rows ∷ [])
    → InStep id cursor (record st { rows = st.rows ++ next_row event now st.rows ∷ [] })
InStep-append id cursor st event now h numbered =
    let row = next_row event now st.rows in
    let own = if_own id row in
    let last = st.session.last_seq in
    record {
      numbered = numbered;
      known = omega (arith, h.known, count-append id st.rows (row ∷ []));
      from = h.from;
      shown =
          ap (λ rows. map view st.session.sent ++ map view_row rows)
            (rows_since-next id last event now st.rows h.numbered h.known)
          ∙ ap (λ rows. map view st.session.sent ++ rows)
              (map-append view_row (rows_since id last st.rows) own)
          ∙ sym (
              append_assoc (map view st.session.sent) (map view_row (rows_since id last st.rows))
                (map view_row own))
          ∙ ap (λ rows. rows ++ map view_row own) h.shown
          ∙ sym (map-append view_row (rows_since id cursor st.rows) own)
          ∙ ap (map view_row) (
              sym (
                rows_since-next id cursor event now st.rows h.numbered
                  (omega (arith, h.from, h.known))));
    }

pub Follows-InStep :
    (id : String) (cursor : ℕ) (start st : Watched)
    → InStep id cursor start
    → Follows id start st
    → InStep id cursor st
Follows-InStep id cursor start st h start_here = h
Follows-InStep id cursor start st h
      (woken {st = before} sends notified keepalive_sent now_iso earlier) =
    InStep-live id cursor before sends notified keepalive_sent now_iso
      (Follows-InStep id cursor start before h earlier)
Follows-InStep id cursor start st h (connected {st = before} sends now_iso execution earlier e) =
    InStep-connect id cursor before sends now_iso execution e
      (Follows-InStep id cursor start before h earlier)
Follows-InStep id cursor start st h (appended {st = before} configured event now seen earlier le) =
    let ih = Follows-InStep id cursor start before h earlier in
    let goal = λ (rows : List EventRow). InStep id cursor (record before { rows = rows }) in
    let numbered = persist-IsNumbered configured event now seen before.rows ih.numbered le in
    elim (persist-cases configured event now seen before.rows ih.numbered le) [
      | inl same ↦ subst goal (sym same) ih
      | inr more ↦
          subst goal (sym more)
            (InStep-append id cursor before event now ih (subst IsNumbered more numbered))
    ]
