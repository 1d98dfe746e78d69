-- ===== src/Executions/Creating/Correct.antt =====
-- A retried request starts nothing twice, and a row that is created is delivered or ends failed.
use composer.Base.{
  ℕ, String, ◌≡◌, refl, ◌≢◌, Bool, true, false, ◌&&◌, Option, none, some, List, [], ◌∷◌, ◌++◌, Memᴰ,
  ltb, ◌==◌, eq_iff, Bool-cases, Option-cases, ◌⊎◌, inl, inr, sym, subst, ◌∙◌, ap, arith,
  if◌then◌else◌, ok, err,
}
use composer.Executions.Store.{is_queued, Row, Store, Task, run, find_unique}
use composer.Executions.Store.Queries.{find_unique-id, find_unique-update_many}
use composer.Executions.Handlers.{
  not_found, too_many_requests, server_error, Caller, enqueue_execution,
}
use composer.Executions.Worker.{claimable, lease_free, claim}
use composer.Executions.Worker.Claiming.{claim_wins}
use composer.Executions.Creating.{
  CreateError, too_large, http, WorkflowRow, find_by_idempotency_key, may_start, new_row,
  mark_enqueue_failed, fail_queued, Enqueueing, accepted, rejected, started, replayed, CreateAnswer,
  enqueue_new, insert_row, existing_for, seen_for, start_or_replay, Request, create_execution,
}

-- The row that a request would create.
abbrev pub row_for : Caller → Request → ℕ → Row
row_for caller request now =
    new_row caller request.workflow_id request.idempotency_key request.fresh_id
      request.fresh_thread_id now

-- The outcomes that leave the database alone: a refusal, or the replay of a row that has the key.
abbrev pub Unstarted : Store → CreateAnswer → Type 0
Unstarted store answer =
    ((e : CreateError) × (e ≢ http server_error) × (answer ≡ (err e, store)))
    ⊎ ((r : Row) × (answer ≡ (ok (replayed r), store)))

start_or_replay-cases :
    (enqueueing : Enqueueing) (now : ℕ) (why : String) (row : Row) (seen : Option Row)
    (store : Store)
    → Unstarted store (start_or_replay enqueueing now why row seen store)
      ⊎ ((existing_for row.idempotency_key row.workflow_id store.rows ≡ none)
          × (start_or_replay enqueueing now why row seen store
              ≡ enqueue_new enqueueing now why row
                  (record store { rows = store.rows ++ row ∷ [] })))
unfolding start_or_replay insert_row
start_or_replay-cases enqueueing now why row (some existing) store = inl (inr (existing, refl))
start_or_replay-cases enqueueing now why row none store =
    elim (Option-cases (existing_for row.idempotency_key row.workflow_id store.rows)) [
      | inl free ↦ inr (free, rw (free, insert_row))
      | inr (existing, taken) ↦ inl (inr (existing, rw (taken, insert_row)))
    ]

create_execution-cases :
    (caller : Caller) (request : Request) (limited : Bool) (max_bytes : ℕ)
    (workflow : Option WorkflowRow) (enqueueing : Enqueueing) (now : ℕ) (why : String)
    (seen : List Row) (store : Store)
    → let answer =
        create_execution caller request limited max_bytes workflow enqueueing now why seen store in
      Unstarted store answer
      ⊎ ((may_start caller workflow ≡ true)
          × (existing_for request.idempotency_key request.workflow_id store.rows ≡ none)
          × (answer
              ≡ enqueue_new enqueueing now why
                  (row_for caller request now)
                  (record store { rows = store.rows ++ row_for caller request now ∷ [] })))
unfolding create_execution new_row
create_execution-cases caller request true max_bytes workflow enqueueing now why seen store =
    inl (inl (http too_many_requests, (λ e. cc e), refl))
create_execution-cases caller request false max_bytes workflow enqueueing now why seen store =
    let row = row_for caller request now in
    let fast = seen_for request.idempotency_key request.workflow_id seen in
    elim (Bool-cases (ltb max_bytes request.input_size)) [
      | inl large ↦ inl (inl (too_large, (λ e. cc e), rw large))
      | inr fits ↦ elim (Bool-cases (may_start caller workflow)) [
        | inr denied ↦ inl (inl (http not_found, (λ e. cc e), rw (fits, denied)))
        | inl may ↦
            let passed : create_execution caller request false max_bytes workflow enqueueing now why
                  seen store
                ≡ start_or_replay enqueueing now why row fast store =
              rw (fits, may) in
            elim (start_or_replay-cases enqueueing now why row fast store) [
              | inl unstarted ↦ inl (subst (Unstarted store) (sym passed) unstarted)
              | inr (free, same) ↦ inr (may, free, passed ∙ same)
            ]
      ]
    ]

-- A request whose workflow and idempotency key an execution already has neither creates a row nor
-- enqueues a task, whatever its fast path had read, and if it succeeds it returns a row as a replay.
pub create_execution_idempotent :
    (caller : Caller) (request : Request) (limited : Bool) (max_bytes : ℕ)
    (workflow : Option WorkflowRow) (enqueueing : Enqueueing) (now : ℕ) (why : String)
    (seen : List Row) (store : Store) (key : String) (existing : Row)
    → request.idempotency_key ≡ some key
    → find_by_idempotency_key store.rows request.workflow_id key ≡ some existing
    → Unstarted store
        (create_execution caller request limited max_bytes workflow enqueueing now why seen store)
unfolding existing_for
create_execution_idempotent caller request limited max_bytes workflow enqueueing now why seen store
      key existing keyed there =
    elim (create_execution-cases caller request limited max_bytes workflow enqueueing now why seen
      store) [ inl unstarted ↦ unstarted | inr (may, free, same) ↦ cc (rw keyed at free, there) ]

-- A request that is answered by a server error has created its row; whatever other requests did to the
-- row before the failure was recorded, a row that was still queued ends failed and any other is kept.
pub create_execution-rejected :
    (caller : Caller) (request : Request) (limited : Bool) (max_bytes : ℕ)
    (workflow : Option WorkflowRow) (others : Store → Store) (now : ℕ) (why : String)
    (seen : List Row) (store : Store) (r : Row)
    → (create_execution caller request limited max_bytes workflow
        (rejected others true)
        now
        why
        seen
        store).0
      ≡ err (http server_error)
    → find_unique
        (others (record store { rows = store.rows ++ row_for caller request now ∷ [] })).rows
        request.fresh_id
      ≡ some r
    → find_unique
        (create_execution caller request limited max_bytes workflow
          (rejected others true)
          now
          why
          seen
          store).1.rows
        request.fresh_id
      ≡ some (if is_queued r.status then mark_enqueue_failed now why r else r)
unfolding enqueue_new fail_queued mark_enqueue_failed new_row
create_execution-rejected caller request limited max_bytes workflow others now why seen store r
      failed found =
    elim (create_execution-cases caller request limited max_bytes workflow (rejected others true)
      now why seen store) [
        | inl (inl (e, other, same)) ↦
            absurd (other (cc (ap (λ (a : CreateAnswer). a.0) same, failed)))
        | inl (inr (x, same)) ↦ cc (ap (λ (a : CreateAnswer). a.0) same, failed)
        | inr (may, free, same) ↦
            let raced =
              (others
                (record store { rows = store.rows ++ row_for caller request now ∷ [] })).rows in
            let own : (r.id == request.fresh_id) ≡ true =
              (eq_iff r.id request.fresh_id).1 (find_unique-id raced request.fresh_id r found) in
            ap (λ (a : CreateAnswer). find_unique a.1.rows request.fresh_id) same
            ∙ find_unique-update_many (λ x. x.id == request.fresh_id && is_queued x.status)
                (mark_enqueue_failed now why) (λ x. refl) raced request.fresh_id
            ∙ ground arith
      ]

find_unique-append :
    (rows : List Row) (row : Row)
    → find_unique rows row.id ≡ none
    → find_unique (rows ++ row ∷ []) row.id ≡ some row
unfolding find_unique
find_unique-append [] row h = ground (arith, (eq_iff row.id row.id).1 refl)
find_unique-append (x ∷ rows) row h = ground (arith, find_unique-append rows row)

new_row-claimable :
    (caller : Caller) (request : Request) (now later : ℕ)
    → claimable later (row_for caller request now) ≡ true
unfolding claimable lease_free new_row
new_row-claimable caller request now later = refl

mem-last : (tasks : List Task) (t : Task) → Memᴰ t (tasks ++ t ∷ [])
mem-last [] t = Memᴰ.head refl
mem-last (x ∷ tasks) t = Memᴰ.tail (mem-last tasks t)

-- A request that starts an execution whose id is fresh puts a run task for it in the queue, and the
-- first worker to deliver it claims the row.
pub create_then_claim :
    (caller : Caller) (request : Request) (limited : Bool) (max_bytes : ℕ)
    (workflow : Option WorkflowRow) (now : ℕ) (why : String) (seen : List Row) (store : Store)
    (row : Row) (worker : String) (later handler_now seconds : ℕ)
    → find_unique store.rows request.fresh_id ≡ none
    → (create_execution caller request limited max_bytes workflow accepted now why seen store).0
      ≡ ok (started row)
    → (may_start caller workflow ≡ true)
      × Memᴰ
          (record { execution_id = request.fresh_id; kind = run })
          (create_execution caller request limited max_bytes workflow accepted now why seen
            store).1.tasks
      × ((claim true request.fresh_id worker later handler_now seconds
            (create_execution caller request limited max_bytes workflow accepted now why seen
              store).1).0
          ≡ true)
unfolding enqueue_new enqueue_execution new_row
create_then_claim caller request limited max_bytes workflow now why seen store row worker later
      handler_now seconds fresh h =
    elim (create_execution-cases caller request limited max_bytes workflow accepted now why seen
      store) [
        | inl (inl (e, other, same)) ↦ cc (ap (λ (a : CreateAnswer). a.0) same, h)
        | inl (inr (x, same)) ↦ cc (ap (λ (a : CreateAnswer). a.0) same, h)
        | inr (may, free, same) ↦
            let new = row_for caller request now in
            let after =
              create_execution caller request limited max_bytes workflow accepted now why seen
                store in
            let there : find_unique after.1.rows request.fresh_id ≡ some new =
              ap (λ (a : CreateAnswer). find_unique a.1.rows request.fresh_id) same
              ∙ find_unique-append store.rows new fresh in
            (
              may,
              subst
                  (λ (a : CreateAnswer).
                    Memᴰ (record { execution_id = request.fresh_id; kind = run }) a.1.tasks)
                  (sym same)
                  (mem-last store.tasks (record { execution_id = request.fresh_id; kind = run })),
              claim_wins request.fresh_id worker later handler_now seconds after.1 new there
                  (new_row-claimable caller request now later),
            )
      ]
