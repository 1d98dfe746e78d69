-- ===== src/Events/Tests.antt =====
-- A log of one event, and a client that follows it.
use composer.Base.{
  ◌<◌, String, ◌≡◌, refl, true, false, none, List, [], ◌∷◌, ◌++◌, map, arith, subst,
}
use composer.Value.{text, empty, field}
use composer.Executions.Samples.{fresh}
use composer.Events.{
  ExecutionEvent, EventRow, count, append, create_event, persist_and_notify, list_since,
  sort_by_seq, insert_by_seq, sweep_old_execution_events,
}
use composer.Events.Log.{IsNumbered}
use composer.Events.Append.{AppendOutcome, append-list_since, persist-IsNumbered}
use composer.Events.Retention.{append_after_retention}
use composer.Events.Stream.{
  Session, is_terminal_event, deliver, poll, live_turn, connect, snapshot, is_terminal,
}
use composer.Events.Stream.Socket.{view}
use composer.Events.Stream.Follow.{Watched, Follows, start_here, appended, connected}
use composer.Events.Stream.Delivered.{
  watched_from, always, CaughtUp, stream_exactly_once, stream_catches_up,
}

abbrev event_of_kind : String → ExecutionEvent
event_of_kind kind = record {
  kind = kind;
  execution_id = "e1";
  tenant_id = none;
  timestamp = "now";
  payload = field "status" (text "running") empty;
  seq = none;
}

abbrev table : List EventRow
table =
    record {
      execution_id = "e1";
      seq = 1;
      kind = "workflow_started";
      payload = field "status" (text "running") empty;
      created_at = 0;
    }
    ∷ []

table_made : persist_and_notify true (event_of_kind "workflow_started") 0 [] [] ≡ table
unfolding persist_and_notify append create_event
table_made = refl

none-IsNumbered : IsNumbered []
unfolding sort_by_seq
none-IsNumbered id = tt

table-IsNumbered : IsNumbered table
table-IsNumbered = subst IsNumbered table_made (
    persist-IsNumbered true (event_of_kind "workflow_started") 0 [] [] none-IsNumbered
      (omega arith))

append-list_since_example :
    AppendOutcome (event_of_kind "node_started") 5 "later" "e1" 1 table table
append-list_since_example =
    append-list_since (event_of_kind "node_started") 5 "later" "e1" 1 table table table-IsNumbered
      (omega arith) (omega arith)

swept_one : count "e1" (sweep_old_execution_events 1 100000 table).1 < 1
unfolding sweep_old_execution_events
swept_one = omega arith

append_after_retention_example :
    list_since "later" "e1" 1
      (append
        (event_of_kind "node_started")
        200000
        (sweep_old_execution_events 1 100000 table).1
        (sweep_old_execution_events 1 100000 table).1).1
    ≡ []
append_after_retention_example =
    append_after_retention (event_of_kind "node_started") 0 100000 200000 "later" table
      table-IsNumbered swept_one

abbrev connected_client : Session
connected_client =
    connect always "now" fresh table (record { last_seq = 0; sent = []; closed = true })

abbrev client : Watched
client = record {
  rows = persist_and_notify true (event_of_kind "node_started") 5 table table;
  session = connected_client;
}

client-Follows : Follows "e1" (watched_from 0 table) client
client-Follows =
    appended true (event_of_kind "node_started") 5 table
      (connected always "now" fresh start_here refl) (omega arith)

client_open : client.session.closed ≡ false
unfolding connect poll snapshot is_terminal deliver list_since is_terminal_event sort_by_seq
    insert_by_seq
client_open = refl

stream_exactly_once_example :
    map view client.session.sent
      ++ map view (list_since "later" "e1" client.session.last_seq client.rows)
    ≡ map view (list_since "later" "e1" 0 client.rows)
stream_exactly_once_example =
    stream_exactly_once "e1" "later" 0 table client table-IsNumbered (omega arith) client-Follows

stream_catches_up_example :
    CaughtUp "later" "e1" 0 client.rows
      (live_turn always true true "later" "e1" client.rows client.session)
stream_catches_up_example =
    stream_catches_up "e1" "later" 0 table client true table-IsNumbered (omega arith) client-Follows
      client_open
