-- ===== src/Executions/Lifecycle/Effects/Sweeps.antt =====
-- The effects of the sweeps, on a snapshot that is fresh.
use mathlib.Core.List.Memᴰ
use composer.Base.{
  ap, ℕ, suc, String, ◌≡◌, refl, ◌≢◌, Bool, true, false, ◌&&◌, Option, none, some, List, [], ◌∷◌,
  keep, mem-keep, Memᴰ, Distinct, ◌==◌, eq_iff, arith, Bool-cases, Option-cases, inl, inr, sym,
  subst, ◌∙◌, leb, ◌++◌,
}
use composer.Value.{Value}
use composer.Executions.Store.{
  Row, Store, Status, running, waiting_approval, queued, completed, canceled, failed, is_active,
  is_running, is_waiting, find_unique, update,
}
use composer.Executions.Store.Queries.{row_ids, find_unique-id, find_unique-update_other}
use composer.Executions.Handlers.{enqueue_execution}
use composer.Executions.Sweeper.{
  fail_all, is_stuck, mark_timed_out, sweep_stuck_executions, is_overdue, mark_overdue,
  sweep_expired_approvals, is_lost, mark_dead, clear_lease, Fate, dead, recovered, try_update,
  clear_if_enqueued, recovery_kind, sweep_lease, sweep_leases, count_fate, SweepResult,
  sweep_expired_leases,
}
use composer.Executions.Sweeper.Scan.{find_unique-mem, row_unique, keep-keep, Distinct-keep}
use composer.Executions.Sweeper.Leases.{sweep_lease-last, sweep_lease-again, sweep_lease-Untouched}
use composer.Executions.Sweeper.Recovery.{apart, is_lost_iff}
use composer.Executions.Lifecycle.{Move, run_again, fail_it}
use composer.Executions.Lifecycle.Keys.{Key, KeepsKey}
use composer.Executions.Lifecycle.Effects.{Change, same, also, update-Change, Change-row_ids}

-- The snapshot of a sweep, as far as it is still to be walked over, still stands in the table.
abbrev pub IsCurrent : List Row → List Row → Type 0
IsCurrent table [] = Unit
IsCurrent table (x ∷ rows) = (find_unique table x.id ≡ some x) × IsCurrent table rows

IsCurrent-update :
    (table after rows : List Row) (id : String)
    → ((other : String) → (other == id) ≡ false → find_unique after other ≡ find_unique table other)
    → ¬ Memᴰ id (row_ids rows)
    → IsCurrent table rows
    → IsCurrent after rows
IsCurrent-update table after [] id others h c = tt
IsCurrent-update table after (x ∷ rows) id others h c = (
  others x.id (apart x.id id (λ e. h (Memᴰ.head (sym e)))) ∙ c.0,
  IsCurrent-update table after rows id others (λ m. h (Memᴰ.tail m)) c.1,
)

-- Every row of a snapshot may move on by the change.
abbrev pub MayMove : (Row → Row) → List Row → Type 0
MayMove change [] = Unit
MayMove change (x ∷ rows) = Move x.status (change x).status × MayMove change rows

fail_all-Change :
    (writes : String → Bool) (change : Row → Row) (rows table : List Row)
    → KeepsKey change
    → Distinct (row_ids rows)
    → Distinct (row_ids table)
    → IsCurrent table rows
    → MayMove change rows
    → Change table (fail_all writes change rows table).1
unfolding fail_all
fail_all-Change writes change [] table keeps d d' current may = same
fail_all-Change writes change (x ∷ rows) table keeps d d' current may =
    elim (Bool-cases (writes x.id)) [
      | inr skipped ↦
          rw skipped (fail_all-Change writes change rows table keeps d.1 d' current.1 may.1)
      | inl written ↦
          let first = update-Change x.id change table x d' keeps current.0 may.0 in
          let after = update x.id change table in
          let current' =
            IsCurrent-update table after rows x.id
              (λ other h.
                find_unique-update_other x.id other change table
                  (λ r. ap (λ (k : Key). k.id) (keeps r)) h)
              d.0 current.1 in
          rw written (
            also first (
              fail_all-Change writes change rows after keeps d.1
                (subst Distinct (sym (Change-row_ids first)) d') current' may.1))
    ]

find_unique-present : (table : List Row) (x : Row) → Memᴰ x table → find_unique table x.id ≢ none
unfolding find_unique
find_unique-present [] x m h = Memᴰ.not-nil m
find_unique-present (y ∷ table) x m h = elim (Memᴰ.cases_cons m) [
  | inl first ↦
      let hit = (eq_iff y.id x.id).1 (ap (λ (r : Row). r.id) (sym first)) in ground (arith, hit, h)
  | inr later ↦ elim (Bool-cases (y.id == x.id)) [
    | inl hit ↦ ground (arith, hit, h)
    | inr miss ↦ find_unique-present table x later (ground (arith, miss, h))
  ]
]

find_unique-own :
    (table : List Row) (x : Row)
    → Distinct (row_ids table)
    → Memᴰ x table
    → find_unique table x.id ≡ some x
find_unique-own table x d m = elim (Option-cases (find_unique table x.id)) [
  | inl gone ↦ absurd (find_unique-present table x m gone)
  | inr (r, found) ↦
      let own : r ≡ x =
        row_unique table r x d (find_unique-mem table x.id r found) m
          (find_unique-id table x.id r found) in
      found ∙ ap some own
]

-- A snapshot that is taken of the table itself is current.
kept-IsCurrent :
    (table rows : List Row)
    → Distinct (row_ids table)
    → ((x : Row) → Memᴰ x rows → Memᴰ x table)
    → IsCurrent table rows
kept-IsCurrent table [] d within = tt
kept-IsCurrent table (x ∷ rows) d within = (
  find_unique-own table x d (within x (Memᴰ.head refl)),
  kept-IsCurrent table rows d (λ y m. within y (Memᴰ.tail m)),
)

filtered-IsCurrent :
    (test : Row → Bool) (table : List Row)
    → Distinct (row_ids table)
    → IsCurrent table (keep test table)
filtered-IsCurrent test table d =
    kept-IsCurrent table (keep test table) d (λ x m. ((mem-keep test x table).0 m).0)

filtered-MayMove :
    (test : Row → Bool) (change : Row → Row) (table : List Row)
    → ((x : Row) → test x ≡ true → Move x.status (change x).status)
    → MayMove change (keep test table)
filtered-MayMove test change [] may = tt
filtered-MayMove test change (x ∷ table) may = elim (Bool-cases (test x)) [
  | inl hit ↦ rw hit (may x hit, filtered-MayMove test change table may)
  | inr miss ↦ rw miss (filtered-MayMove test change table may)
]

pub sweep_stuck-Change :
    (writes : String → Bool) (s now : ℕ) (store : Store)
    → Distinct (row_ids store.rows)
    → Change store.rows (sweep_stuck_executions writes (suc s) now store).1.rows
unfolding sweep_stuck_executions mark_timed_out is_stuck
sweep_stuck-Change writes s now store d =
    fail_all-Change writes (mark_timed_out (suc s) now) (keep (is_stuck (suc s) now) store.rows)
      store.rows (λ x. refl) (Distinct-keep (is_stuck (suc s) now) store.rows d) d
      (filtered-IsCurrent _ store.rows d)
      (filtered-MayMove _ (mark_timed_out (suc s) now) store.rows
        (λ x h. fail_it (ground (arith, h)) refl))

pub sweep_approvals-Change :
    (parse : Value → Option ℕ) (writes : String → Bool) (h now : ℕ) (store : Store)
    → Distinct (row_ids store.rows)
    → Change store.rows (sweep_expired_approvals parse writes (suc h) now store).1.rows
unfolding sweep_expired_approvals mark_overdue
sweep_approvals-Change parse writes h now store d =
    let test : Row → Bool = λ r. is_waiting r.status && is_overdue parse (suc h) now r in
    rw (keep-keep (λ x. is_waiting x.status) (is_overdue parse (suc h) now) store.rows) (
      fail_all-Change writes (mark_overdue (suc h) now) (keep test store.rows) store.rows
        (λ x. refl) (Distinct-keep test store.rows d) d (filtered-IsCurrent test store.rows d)
        (filtered-MayMove test (mark_overdue (suc h) now) store.rows
          (λ x e. fail_it (ground (arith, e)) refl)))

abbrev pub AreRunning : List Row → Type 0
AreRunning [] = Unit
AreRunning (x ∷ rows) = (x.status ≡ running) × AreRunning rows

running_iff : (s : Status) → is_running s ≡ true → s ≡ running
running_iff running h = refl
running_iff queued h = cc
running_iff waiting_approval h = cc
running_iff completed h = cc
running_iff failed h = cc
running_iff canceled h = cc

lost-AreRunning : (now : ℕ) (table : List Row) → AreRunning (keep (is_lost now) table)
lost-AreRunning now [] = tt
lost-AreRunning now (x ∷ table) = elim (Bool-cases (is_lost now x)) [
  | inl lost ↦
      rw lost (running_iff x.status ((is_lost_iff now x).0 lost).0, lost-AreRunning now table)
  | inr fine ↦ rw fine (lost-AreRunning now table)
]

tried-Change :
    (written : Bool) (fate : Fate) (id : String) (change : Row → Row) (store : Store) (r : Row)
    → Distinct (row_ids store.rows)
    → KeepsKey change
    → find_unique store.rows id ≡ some r
    → Move r.status (change r).status
    → Change store.rows (try_update written fate id change store).1.rows
unfolding try_update
tried-Change false fate id change store r d keeps found move = same
tried-Change true fate id change store r d keeps found move =
    update-Change id change store.rows r d keeps found move

again-Change :
    (written enqueued : Bool) (r : Row) (store : Store)
    → Distinct (row_ids store.rows)
    → find_unique store.rows r.id ≡ some r
    → Move r.status r.status
    → Change store.rows
        (clear_if_enqueued written r.id
          (enqueue_execution enqueued r.id (recovery_kind r) store)).1.rows
unfolding clear_if_enqueued enqueue_execution clear_lease
again-Change written false r store d found move = same
again-Change written true r store d found move =
    tried-Change written recovered r.id clear_lease
      (record store {
        tasks = store.tasks ++ record { execution_id = r.id; kind = recovery_kind r } ∷ [];
      })
      r d (λ x. refl) found move

-- One row of a lease sweep: dead-lettered, or its lease cleared, or as it was.
sweep_lease-Change :
    (written enqueued : Bool) (max_attempts now : ℕ) (r : Row) (store : Store)
    → Distinct (row_ids store.rows)
    → find_unique store.rows r.id ≡ some r
    → r.status ≡ running
    → Change store.rows (sweep_lease written enqueued max_attempts now r store).1.rows
unfolding try_update clear_if_enqueued enqueue_execution mark_dead clear_lease
sweep_lease-Change written enqueued max_attempts now r store d found active =
    elim (Bool-cases (leb max_attempts r.delivery_attempts)) [
      | inl last ↦
          subst (λ (a : Fate × Store). Change store.rows a.1.rows)
            (sym (sweep_lease-last written enqueued max_attempts now r store last))
            (tried-Change written dead r.id _ store r d (λ x. refl) found
              (fail_it (ap is_active active) refl))
      | inr again ↦
          subst (λ (a : Fate × Store). Change store.rows a.1.rows)
            (sym (sweep_lease-again written enqueued max_attempts now r store again))
            (again-Change written enqueued r store d found (run_again (ap is_active active) active))
    ]

sweep_leases-Change :
    (writes enqueues : String → Bool) (max_attempts now : ℕ) (rows : List Row)
    (result : SweepResult) (store : Store)
    → Distinct (row_ids rows)
    → Distinct (row_ids store.rows)
    → IsCurrent store.rows rows
    → AreRunning rows
    → Change store.rows (sweep_leases writes enqueues max_attempts now rows result store).1.rows
unfolding sweep_leases
sweep_leases-Change writes enqueues max_attempts now [] result store d d' current active = same
sweep_leases-Change writes enqueues max_attempts now (x ∷ rows) result store d d' current active =
    let next = sweep_lease (writes x.id) (enqueues x.id) max_attempts now x store in
    let first =
      sweep_lease-Change (writes x.id) (enqueues x.id) max_attempts now x store d' current.0
        active.0 in
    also first (
      sweep_leases-Change writes enqueues max_attempts now rows (count_fate next.0 result) next.1
        d.1 (subst Distinct (sym (Change-row_ids first)) d')
        (IsCurrent-update store.rows next.1.rows rows x.id
          (sweep_lease-Untouched (writes x.id) (enqueues x.id) max_attempts now x store).0 d.0
          current.1)
        active.1)

pub sweep_expired_leases-Change :
    (writes enqueues : String → Bool) (attempts now : ℕ) (store : Store)
    → Distinct (row_ids store.rows)
    → Change store.rows (sweep_expired_leases writes enqueues (suc attempts) now store).1.rows
unfolding sweep_expired_leases
sweep_expired_leases-Change writes enqueues attempts now store d =
    sweep_leases-Change writes enqueues (suc attempts) now (keep (is_lost now) store.rows) _ store
      (Distinct-keep (is_lost now) store.rows d) d (filtered-IsCurrent (is_lost now) store.rows d)
      (lost-AreRunning now store.rows)
