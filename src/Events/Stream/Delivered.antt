-- ===== src/Events/Stream/Delivered.antt =====
-- What a client has got of the log of an execution.
use composer.Base.{
  ap, ℕ, ◌≤◌, String, ◌≡◌, refl, Bool, true, false, List, [], ◌∷◌, ◌++◌, map, arith, Bool-cases,
  ◌⊎◌, inl, inr, sym, subst, ◌∙◌,
}
use composer.Events.{ExecutionEvent, EventRow, count, list_since}
use composer.Events.Log.{IsNumbered}
use composer.Events.Append.{map-append, append-nil}
use composer.Events.Stream.{Session, is_terminal_event, received, deliver, poll, live_turn}
use composer.Events.Stream.Socket.{
  view, view-list_since, append_assoc, deliver-nil, deliver-last, deliver-more,
}
use composer.Events.Stream.Follow.{Watched, Follows, Follows-InStep}

-- A client with a cursor that has got nothing yet, and the table.
abbrev pub watched_from : ℕ → List EventRow → Watched
watched_from cursor rows = record {
  rows = rows;
  session = record { last_seq = cursor; sent = []; closed = true };
}

-- A client follows an execution from a cursor that the log has reached, in a table whose events are
-- numbered from 1 without gaps, as before any retention sweep. Whatever other requests append, with counts
-- that may be out of date, and however often the connection breaks, the events that the client has got,
-- followed by those that a reading at its cursor brings, are the events after the first cursor, each once
-- and in order, but for the times that the readings stamp.
pub stream_exactly_once :
    (id now_iso : String) (cursor : ℕ) (rows : List EventRow) (st : Watched)
    → IsNumbered rows
    → cursor ≤ count id rows
    → Follows id (watched_from cursor rows) st
    → map view st.session.sent ++ map view (list_since now_iso id st.session.last_seq st.rows)
      ≡ map view (list_since now_iso id cursor st.rows)
stream_exactly_once id now_iso cursor rows st h le follows =
    let ih =
      Follows-InStep id cursor (watched_from cursor rows) st
        (record { numbered = h; known = le; from = omega arith; shown = refl }) follows in
    ap (λ rest. map view st.session.sent ++ rest)
      (view-list_since now_iso id st.session.last_seq st.rows)
    ∙ ih.shown
    ∙ sym (view-list_since now_iso id cursor st.rows)

abbrev pub Ended : Session → Type 0
Ended after =
    (before : List ExecutionEvent) × (last : ExecutionEvent) × (after.sent ≡ before ++ last ∷ [])
    × (is_terminal_event last ≡ true)

abbrev pub always : ExecutionEvent → Bool
always event = true

deliver-all :
    (events : List ExecutionEvent) (session : Session)
    → session.closed ≡ false
    → (((deliver always events session).closed ≡ false)
        × ((deliver always events session).sent ≡ session.sent ++ events))
      ⊎ Ended (deliver always events session)
deliver-all [] session still = inl (
  rw (deliver-nil always session) still,
  rw (deliver-nil always session) (sym (append-nil session.sent)),
)
deliver-all (event ∷ events) session still = elim (Bool-cases (is_terminal_event event)) [
  | inl terminal ↦ inr (
    session.sent,
    event,
    ap (λ (s : Session). s.sent) (deliver-last always event events session refl terminal),
    terminal,
  )
  | inr other ↦
      let step = deliver-more always event events session refl other in
      elim (deliver-all events (received event session) other) [
        | inl (on, all) ↦
            inl (rw step on, rw step (all ∙ append_assoc session.sent (event ∷ []) events))
        | inr ends ↦ inr (rw step ends)
      ]
]

live-deliver :
    (now_iso id : String) (rows : List EventRow) (session : Session) (notified : Bool)
    → session.closed ≡ false
    → live_turn always notified true now_iso id rows session
      ≡ deliver always (list_since now_iso id session.last_seq rows) session
unfolding live_turn poll
live-deliver now_iso id rows session true still = rw still refl
live-deliver now_iso id rows session false still = rw still refl

-- What a turn of the live loop leaves whose messages all go through.
abbrev pub CaughtUp : String → String → ℕ → List EventRow → Session → Type 0
CaughtUp now_iso id cursor rows after =
    ((after.closed ≡ false) × (map view after.sent ≡ map view (list_since now_iso id cursor rows)))
    ⊎ Ended after

-- A client follows an execution from a cursor that the log has reached, in a table whose events are
-- numbered from 1 without gaps, as before any retention sweep, and its connection is open. After a turn of
-- the live loop whose messages go through, on a notification or on the timeout, the client has got all
-- events after its first cursor, or the last that it has got is the end of the execution.
pub stream_catches_up :
    (id now_iso : String) (cursor : ℕ) (rows : List EventRow) (st : Watched) (notified : Bool)
    → IsNumbered rows
    → cursor ≤ count id rows
    → Follows id (watched_from cursor rows) st
    → st.session.closed ≡ false
    → CaughtUp now_iso id cursor st.rows
        (live_turn always notified true now_iso id st.rows st.session)
stream_catches_up id now_iso cursor rows st notified h le follows still =
    let left = list_since now_iso id st.session.last_seq st.rows in
    let polled = live-deliver now_iso id st.rows st.session notified still in
    subst (CaughtUp now_iso id cursor st.rows) (sym polled)
      (elim (deliver-all left st.session still) [
        | inl (on, all) ↦ inl (
          on,
          ap (map view) all
              ∙ map-append view st.session.sent left
              ∙ stream_exactly_once id now_iso cursor rows st h le follows,
        )
        | inr ends ↦ inr ends
      ])
