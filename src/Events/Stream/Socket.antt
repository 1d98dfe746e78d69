-- ===== src/Events/Stream/Socket.antt =====
-- What one reading of the log brings to a client.
use composer.Base.{
  ap, ℕ, suc, ◌+◌, ◌≤◌, String, ◌≡◌, refl, Bool, true, false, Option, some, List, [], ◌∷◌, ◌++◌,
  map, length, keep, ltb, arith, Bool-cases, inl, inr, sym, subst, ◌∙◌,
}
use composer.Value.{Fields}
use composer.Events.{ExecutionEvent, EventRow, after_seq, rows_since, event_of, list_since}
use composer.Events.Log.{NumberedFrom}
use composer.Events.Append.{map-append}
use composer.Events.Stream.{Session, is_terminal_event, received, deliver, poll}

-- An event as the log has it, without the time of the reading.
abbrev pub view : ExecutionEvent → String × Option ℕ × String × Fields
view event = (event.execution_id, event.seq, event.kind, event.payload)

abbrev pub view_row : EventRow → String × Option ℕ × String × Fields
view_row row = (row.execution_id, some row.seq, row.kind, row.payload)

pub view-list_since :
    (now_iso id : String) (cursor : ℕ) (rows : List EventRow)
    → map view (list_since now_iso id cursor rows) ≡ map view_row (rows_since id cursor rows)
unfolding list_since
view-list_since now_iso id cursor rows = map-view (rows_since id cursor rows)
  where
    map-view :
        (found : List EventRow) → map view (map (event_of now_iso) found) ≡ map view_row found
    map-view [] = refl
    map-view (row ∷ found) = cc (map-view found)

keep-later :
    (start cursor : ℕ) (rows : List EventRow)
    → NumberedFrom start rows
    → cursor ≤ start
    → keep (after_seq cursor) rows ≡ rows
keep-later start cursor [] h le = refl
keep-later start cursor (row ∷ rows) h le =
    ground (arith, h.0, keep-later (suc start) cursor rows h.1 (omega arith))

pub numbered-keep :
    (start cursor : ℕ) (rows : List EventRow)
    → NumberedFrom start rows
    → start ≤ cursor
    → cursor ≤ start + length rows
    → NumberedFrom cursor (keep (after_seq cursor) rows)
numbered-keep start cursor [] h from to = tt
numbered-keep start cursor (row ∷ rows) h from to = elim (Bool-cases (ltb cursor row.seq)) [
  | inl after ↦
      let e : start ≡ cursor = ground (arith, h.0) in
      subst (NumberedFrom cursor) (sym (keep-later start cursor (row ∷ rows) h (omega (arith, e))))
        (subst (λ c. NumberedFrom c (row ∷ rows)) e h)
  | inr before ↦
      rw before
        (numbered-keep (suc start) cursor rows h.1 (ground (arith, h.0)) (omega (arith, to)))
]

-- How many numbers are after the cursor.
pub length-keep :
    (start cursor : ℕ) (rows : List EventRow)
    → NumberedFrom start rows
    → start ≤ cursor
    → cursor ≤ start + length rows
    → length (keep (after_seq cursor) rows) + cursor ≡ start + length rows
length-keep start cursor [] h from to = omega (arith, from, to)
length-keep start cursor (row ∷ rows) h from to = elim (Bool-cases (ltb cursor row.seq)) [
  | inl after ↦
      let e : start ≡ cursor = ground (arith, h.0) in
      rw (keep-later start cursor (row ∷ rows) h (omega (arith, e))) (omega (arith, e))
  | inr before ↦ rw before (
      omega
        (arith, length-keep (suc start) cursor rows h.1 (ground (arith, h.0)) (omega (arith, to))))
]

pub keep-twice :
    (cursor later : ℕ) (rows : List EventRow)
    → cursor ≤ later
    → keep (after_seq later) (keep (after_seq cursor) rows) ≡ keep (after_seq later) rows
keep-twice cursor later [] le = refl
keep-twice cursor later (row ∷ rows) le = ground (arith, keep-twice cursor later rows le)

-- The client got a first part of what was read, and its cursor stands at the end of the part.
abbrev pub GotFirst : List EventRow → Session → Session → Type 0
GotFirst rows session after =
    (map view after.sent ++ map view_row (keep (after_seq after.last_seq) rows)
      ≡ map view session.sent ++ map view_row rows)
    × (session.last_seq ≤ after.last_seq)
    × (after.last_seq ≤ session.last_seq + length rows)

GotFirst-stop :
    (rows : List EventRow) (session after : Session)
    → NumberedFrom session.last_seq rows
    → after.sent ≡ session.sent
    → after.last_seq ≡ session.last_seq
    → GotFirst rows session after
GotFirst-stop rows session after h sent last = (
  cc (keep-later session.last_seq after.last_seq rows h (omega (arith, last)), ap (map view) sent),
  omega (arith, last),
  omega (arith, last),
)

pub append_assoc {ℓ} : {A : Type ℓ} (xs ys zs : List A) → (xs ++ ys) ++ zs ≡ xs ++ (ys ++ zs)
append_assoc [] ys zs = refl
append_assoc (x ∷ xs) ys zs = cc (append_assoc xs ys zs)

GotFirst-next :
    (now_iso : String) (row : EventRow) (rows : List EventRow) (session after : Session)
    → row.seq ≡ suc session.last_seq
    → GotFirst rows (received (event_of now_iso row) session) after
    → GotFirst (row ∷ rows) session after
GotFirst-next now_iso row rows session after e got =
    let event = event_of now_iso row in
    let passed : ltb after.last_seq row.seq ≡ false = ground (arith, got.1) in
    (
      rw passed (
          got.0
          ∙ ap (λ xs. xs ++ map view_row rows) (map-append view session.sent (event ∷ []))
          ∙ append_assoc (map view session.sent) (map view (event ∷ [])) (map view_row rows)),
      omega (arith, got.1, e),
      omega (arith, got.2, e),
    )

pub deliver-nil :
    (sends : ExecutionEvent → Bool) (session : Session) → deliver sends [] session ≡ session
unfolding deliver
deliver-nil sends session = refl

-- The three ways of one event: the socket breaks, the stream ends with it, or it goes on.
pub deliver-broken :
    (sends : ExecutionEvent → Bool) (event : ExecutionEvent) (events : List ExecutionEvent)
    (session : Session)
    → sends event ≡ false
    → deliver sends (event ∷ events) session ≡ record session { closed = true }
unfolding deliver
deliver-broken sends event events session broken = rw broken refl

pub deliver-last :
    (sends : ExecutionEvent → Bool) (event : ExecutionEvent) (events : List ExecutionEvent)
    (session : Session)
    → sends event ≡ true
    → is_terminal_event event ≡ true
    → deliver sends (event ∷ events) session ≡ received event session
unfolding deliver
deliver-last sends event events session gone terminal = rw gone (rw terminal refl)

pub deliver-more :
    (sends : ExecutionEvent → Bool) (event : ExecutionEvent) (events : List ExecutionEvent)
    (session : Session)
    → sends event ≡ true
    → is_terminal_event event ≡ false
    → deliver sends (event ∷ events) session ≡ deliver sends events (received event session)
unfolding deliver
deliver-more sends event events session gone other = rw gone (rw other refl)

pub deliver-GotFirst :
    (sends : ExecutionEvent → Bool) (now_iso : String) (session : Session) (rows : List EventRow)
    → NumberedFrom session.last_seq rows
    → GotFirst rows session (deliver sends (map (event_of now_iso) rows) session)
deliver-GotFirst sends now_iso session [] h =
    subst (GotFirst [] session) (sym (deliver-nil sends session))
      (GotFirst-stop [] session session h refl refl)
deliver-GotFirst sends now_iso session (row ∷ rows) h =
    let event = event_of now_iso row in
    let events = map (event_of now_iso) rows in
    let next = received event session in
    let later : NumberedFrom row.seq rows = subst (λ n. NumberedFrom n rows) (sym h.0) h.1 in
    let goal = GotFirst (row ∷ rows) session in
    elim (Bool-cases (sends event)) [
      | inr broken ↦
          subst goal (sym (deliver-broken sends event events session broken))
            (GotFirst-stop (row ∷ rows) session (record session { closed = true }) h refl refl)
      | inl gone ↦ elim (Bool-cases (is_terminal_event event)) [
        | inl terminal ↦ subst goal (sym (deliver-last sends event events session gone terminal)) (
            GotFirst-next now_iso row rows session next h.0
              (GotFirst-stop rows next next later refl refl))
        | inr other ↦ subst goal (sym (deliver-more sends event events session gone other)) (
            GotFirst-next now_iso row rows session (deliver sends events next) h.0
              (deliver-GotFirst sends now_iso next rows later))
      ]
    ]

pub poll-closed :
    (sends : ExecutionEvent → Bool) (now_iso id : String) (rows : List EventRow) (session : Session)
    → session.closed ≡ true
    → poll sends now_iso id rows session ≡ session
unfolding poll
poll-closed sends now_iso id rows session closed = rw closed refl

pub poll-open :
    (sends : ExecutionEvent → Bool) (now_iso id : String) (rows : List EventRow) (session : Session)
    → session.closed ≡ false
    → poll sends now_iso id rows session
      ≡ deliver sends (map (event_of now_iso) (rows_since id session.last_seq rows)) session
unfolding poll list_since
poll-open sends now_iso id rows session still = rw still refl
