-- ===== src/Events.antt =====
-- The event log of executions: ExecutionEvent of src/engine/events.py and PostgresEventStore of
-- src/engine/events_pg.py over the table execution_events, whose column pair (execution_id, seq) is
-- unique, with the retention sweep of src/maintenance/execution_sweeper.py. Times are in seconds.
pub mod Log
pub mod Append
pub mod Retention
pub mod Stream
mod Tests
use composer.Base.{
  ℕ, zero, suc, ◌+◌, ◌-◌, ◌*◌, String, Bool, true, false, not, ◌&&◌, ◌||◌, Option, none, some, List,
  [], ◌∷◌, ◌++◌, map, length, any, keep, Result, ok, err, ◌==◌, eqb, ltb, leb, if◌then◌else◌,
}
use composer.Value.{
  Value, null, int, pos, text, Fields, empty, field, field_at, merge_fields, is_text,
}

pub record ExecutionEvent : Type 0 where
  pub kind : String
  pub execution_id : String
  pub tenant_id : Option String
  pub timestamp : String
  pub payload : Fields
  pub seq : Option ℕ

unfoldable pub text_or_null : Option String → Value
text_or_null none = null
text_or_null (some s) = text s

unfoldable pub number_or_null : Option ℕ → Value
number_or_null none = null
number_or_null (some n) = int (pos n)

unfoldable pub as_json : ExecutionEvent → Fields
unfolding text_or_null number_or_null merge_fields
as_json event =
    merge_fields
      (field "type" (text event.kind) (
        field "executionId" (text event.execution_id) (
          field "tenantId" (text_or_null event.tenant_id) (
            field "timestamp" (text event.timestamp)
              (field "seq" (number_or_null event.seq) empty)))))
      event.payload

pub record EventRow : Type 0 where
  pub execution_id : String
  pub seq : ℕ
  pub kind : String
  pub payload : Fields
  pub created_at : ℕ

abbrev pub belongs : String → EventRow → Bool
belongs id row = row.execution_id == id

abbrev pub count : String → List EventRow → ℕ
count id rows = length (keep (belongs id) rows)

-- A row already has the execution and the number.
abbrev pub taken : String → ℕ → List EventRow → Bool
taken id seq rows = any (λ row. belongs id row && eqb row.seq seq) rows

pub data InsertError : Type 0 where
  unique_violation : InsertError

abbrev pub row_of_event : ExecutionEvent → ℕ → ℕ → EventRow
row_of_event event seq now = record {
  execution_id = event.execution_id;
  seq = seq;
  kind = event.kind;
  payload = event.payload;
  created_at = now;
}

-- `db.executionevent.create`
unfoldable pub create_event :
    ExecutionEvent → ℕ → ℕ → List EventRow → Result InsertError ℕ × List EventRow
create_event event seq now rows =
    if taken event.execution_id seq rows
    then (err unique_violation, rows)
    else (ok seq, rows ++ row_of_event event seq now ∷ [])

-- `seen` is the table when `append` counts, `rows` the table when it writes.
unfoldable pub append :
    ExecutionEvent → ℕ → List EventRow → List EventRow → Result InsertError ℕ × List EventRow
unfolding create_event
append event now seen rows = create_event event (count event.execution_id seen + 1) now rows

-- `_persist_and_notify` and `_emit`: no store, no event; an exception is logged and dropped.
unfoldable pub persist_and_notify :
    Bool → ExecutionEvent → ℕ → List EventRow → List EventRow → List EventRow
unfolding append
persist_and_notify false event now seen rows = rows
persist_and_notify true event now seen rows = (append event now seen rows).1

-- ORDER BY seq.
unfoldable pub insert_by_seq : EventRow → List EventRow → List EventRow
insert_by_seq row [] = row ∷ []
insert_by_seq row (first ∷ rest) =
    if leb row.seq first.seq then row ∷ first ∷ rest else first ∷ insert_by_seq row rest

unfoldable pub sort_by_seq : List EventRow → List EventRow
unfolding insert_by_seq
sort_by_seq [] = []
sort_by_seq (row ∷ rows) = insert_by_seq row (sort_by_seq rows)

abbrev pub after_seq : ℕ → EventRow → Bool
after_seq cursor row = ltb cursor row.seq

abbrev pub rows_since : String → ℕ → List EventRow → List EventRow
rows_since id cursor rows = sort_by_seq (keep (λ row. belongs id row && after_seq cursor row) rows)

-- The event is made anew, with no tenant and the time of the reading.
abbrev pub event_of : String → EventRow → ExecutionEvent
event_of now_iso row = record {
  kind = row.kind;
  execution_id = row.execution_id;
  tenant_id = none;
  timestamp = now_iso;
  payload = row.payload;
  seq = some row.seq;
}

unfoldable pub list_since : String → String → ℕ → List EventRow → List ExecutionEvent
unfolding sort_by_seq
list_since now_iso id cursor rows = map (event_of now_iso) (rows_since id cursor rows)

pub data RetentionError : Type 0 where
  retention_not_positive : RetentionError

abbrev pub cutoff : ℕ → ℕ → ℕ
cutoff retention_days now = now - retention_days * 86400

unfoldable pub sweep_old_execution_events :
    ℕ → ℕ → List EventRow → Result RetentionError ℕ × List EventRow
sweep_old_execution_events zero now rows = (err retention_not_positive, rows)
sweep_old_execution_events (suc days) now rows = (
  ok (length (keep (λ row. ltb row.created_at (cutoff (suc days) now)) rows)),
  keep (λ row. not (ltb row.created_at (cutoff (suc days) now))) rows,
)
