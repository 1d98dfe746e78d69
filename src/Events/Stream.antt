-- ===== src/Events/Stream.antt =====
-- The WebSocket stream of one execution, src/api/events_ws.py: whether a client is let in, the snapshot,
-- the replay after the client's cursor, and the live loop, which reads the log again whenever it wakes.
-- A message on the socket goes through or raises, which is a function on the events.
pub mod Socket
pub mod Follow
pub mod Delivered
use composer.Base.{
  ℕ, String, ◌≡◌, refl, ◌≤◌, Bool, true, false, not, ◌&&◌, ◌||◌, Option, none, some, List, [], ◌∷◌,
  ◌++◌, Result, ok, err, ◌==◌, if◌then◌else◌,
}
use composer.Value.{Fields, text, empty, field, field_at, is_text}
use composer.Executions.Store.{
  Status, queued, running, waiting_approval, completed, failed, canceled, Row, find_unique,
}
use composer.Events.{ExecutionEvent, EventRow, count, persist_and_notify, list_since}

-- `payload.get("status")` is a text in every event of the engine.
abbrev pub has_terminal_status : Fields → Bool
has_terminal_status payload =
    is_text (field_at payload "status") "completed"
    || is_text (field_at payload "status") "failed"
    || is_text (field_at payload "status") "canceled"

unfoldable pub is_terminal_event : ExecutionEvent → Bool
is_terminal_event event = event.kind == "workflow_completed" && has_terminal_status event.payload

-- What the handler reads of the user row.
pub record User : Type 0 where
  pub is_active : Bool
  pub is_admin : Bool

pub data Refusal : Type 0 where
  server_error : Refusal
  unauthenticated : Refusal
  not_found : Refusal
  forbidden : Refusal

unfoldable pub close_code : Refusal → ℕ
close_code server_error = 4500
close_code unauthenticated = 4401
close_code not_found = 4404
close_code forbidden = 4403

-- `user is None or getattr(user, "isActive", True) is False`
unfoldable pub inactive : Option User → Bool
inactive none = true
inactive (some user) = not user.is_active

unfoldable pub is_admin : Option User → Bool
is_admin none = false
is_admin (some user) = user.is_admin

unfoldable pub owns : Option String → String → Bool
owns none user_id = false
owns (some owner) user_id = owner == user_id

unfoldable pub admit : Bool → Option User → String → Row → Result Refusal Row
unfolding inactive is_admin owns
admit standalone user user_id execution =
    if standalone && inactive user
    then err unauthenticated
    else if not (is_admin user) && not (owns execution.user_id user_id)
    then err forbidden
    else ok execution

unfoldable pub authorize :
    Bool → (String → Option User) → Option String → Option Row → Result Refusal Row
unfolding admit
authorize standalone users none execution = err unauthenticated
authorize standalone users (some user_id) none = err not_found
authorize standalone users (some user_id) (some execution) =
    admit standalone (users user_id) user_id execution

-- `user_id` is the answer of `_authenticate_ws`.
unfoldable pub open_ws :
    Bool
    → Bool
    → Bool
    → (String → Option User)
    → Option String
    → String
    → List Row
    → Result Refusal Row
unfolding authorize find_unique
open_ws has_db has_store standalone users user_id id executions =
    if has_db && has_store
    then authorize standalone users user_id (find_unique executions id)
    else err server_error

-- The connection: the cursor, what the client has got of the log, and whether the socket is closed.
pub record Session : Type 0 where
  pub last_seq : ℕ
  pub sent : List ExecutionEvent
  pub closed : Bool

unfoldable pub status_text : Status → String
status_text queued = "queued"
status_text running = "running"
status_text waiting_approval = "waiting_approval"
status_text completed = "completed"
status_text failed = "failed"
status_text canceled = "canceled"

unfoldable pub snapshot_type : Status → String
snapshot_type waiting_approval = "approval_required"
snapshot_type completed = "workflow_completed"
snapshot_type failed = "workflow_completed"
snapshot_type canceled = "workflow_completed"
snapshot_type _ = "workflow_started"

unfoldable pub snapshot : String → Row → ExecutionEvent
unfolding status_text snapshot_type
snapshot now_iso execution = record {
  kind = snapshot_type execution.status;
  execution_id = execution.id;
  tenant_id = none;
  timestamp = now_iso;
  payload = field "status" (text (status_text execution.status)) empty;
  seq = none;
}

abbrev pub seq_or : ℕ → Option ℕ → ℕ
seq_or cursor none = cursor
seq_or cursor (some seq) = seq

abbrev pub received : ExecutionEvent → Session → Session
received event session = record {
  last_seq = seq_or session.last_seq event.seq;
  sent = session.sent ++ event ∷ [];
  closed = is_terminal_event event;
}

-- `for event in ...: send; last_seq = event.seq; if terminal: return`
unfoldable pub deliver : (ExecutionEvent → Bool) → List ExecutionEvent → Session → Session
unfolding is_terminal_event
deliver sends [] session = session
deliver sends (event ∷ events) session =
    let rest = deliver sends events (received event session) in
    if not (sends event)
    then record session { closed = true }
    else if is_terminal_event event
    then received event session
    else rest

-- `list_since` at the cursor, and its events out. A closed socket runs no more of the handler.
unfoldable pub poll : (ExecutionEvent → Bool) → String → String → List EventRow → Session → Session
unfolding deliver list_since
poll sends now_iso id rows session =
    if session.closed
    then session
    else deliver sends (list_since now_iso id session.last_seq rows) session

-- One turn of the live loop: after a timeout a keepalive is sent, and a failure ends the loop.
unfoldable pub live_turn :
    (ExecutionEvent → Bool) → Bool → Bool → String → String → List EventRow → Session → Session
unfolding poll
live_turn sends notified keepalive_sent now_iso id rows session =
    let polled = poll sends now_iso id rows session in
    if notified || keepalive_sent then polled else record polled { closed = true }

-- `execution.status in _TERMINAL_STATUSES`
unfoldable pub is_terminal : Status → Bool
is_terminal completed = true
is_terminal failed = true
is_terminal canceled = true
is_terminal _ = false

-- A client connects with the cursor of the last event that it got: the snapshot, then the replay. An
-- execution that has ended gets the snapshot alone.
unfoldable pub connect : (ExecutionEvent → Bool) → String → Row → List EventRow → Session → Session
unfolding poll snapshot is_terminal
connect sends now_iso execution rows session =
    let replayed = poll sends now_iso execution.id rows (record session { closed = false }) in
    if not (sends (snapshot now_iso execution)) || is_terminal execution.status
    then record session { closed = true }
    else replayed
