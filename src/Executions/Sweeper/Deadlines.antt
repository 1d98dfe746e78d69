-- ===== src/Executions/Sweeper/Deadlines.antt =====
-- `sweep_stuck_executions` and `sweep_expired_approvals`: which rows fail, and how many are counted.
use mathlib.Core.List.Memᴰ
use composer.Base.{
  ℕ, suc, String, ◌≡◌, refl, ◌≢◌, Bool, true, false, ◌&&◌, Option, some, List, [], ◌∷◌, Memᴰ,
  Distinct, keep, length, Bool-cases, inl, inr, sym, subst, ◌∙◌, arith, if◌then◌else◌, ok,
}
use composer.Value.{Value}
use composer.Executions.Store.{Row, Store, failed, is_waiting, find_unique, update}
use composer.Executions.Store.Queries.{
  row_ids, KeepsId, find_unique-id, find_unique-update, find_unique-update_other,
}
use composer.Executions.Sweeper.{
  fail_all, is_stuck, mark_timed_out, sweep_stuck_executions, is_overdue, mark_overdue,
  sweep_expired_approvals,
}
use composer.Executions.Sweeper.Scan.{keep-keep, Distinct-keep, mem-row_ids, not-scanned, scanned}
use composer.Executions.Sweeper.Recovery.{apart}

-- A step on another row, or one whose write raises.
step-other :
    (written : Bool) (id other : String) (change : Row → Row) (table : List Row)
    → KeepsId change
    → other ≢ id
    → find_unique (if written then update id change table else table) other
      ≡ find_unique table other
step-other false id other change table keeps h = refl
step-other true id other change table keeps h =
    find_unique-update_other id other change table keeps (apart other id h)

fail_all-miss :
    (writes : String → Bool) (change : Row → Row) (rows table : List Row) (id : String)
    → KeepsId change
    → ¬ Memᴰ id (row_ids rows)
    → find_unique (fail_all writes change rows table).1 id ≡ find_unique table id
unfolding fail_all
fail_all-miss writes change [] table id keeps h = refl
fail_all-miss writes change (x ∷ rows) table id keeps h =
    fail_all-miss writes change rows _ id keeps (λ m. h (Memᴰ.tail m))
    ∙ step-other (writes x.id) x.id id change table keeps (λ e. h (Memᴰ.head e))

-- What a loop leaves of a row whose id is among those it walks over.
abbrev pub failed_if : Bool → (Row → Row) → Row → Row
failed_if written change r = if written then change r else r

step_own :
    (written : Bool) (id : String) (change : Row → Row) (table : List Row) (r : Row)
    → KeepsId change
    → find_unique table id ≡ some r
    → find_unique (if written then update id change table else table) id
      ≡ some (failed_if written change r)
step_own false id change table r keeps found = found
step_own true id change table r keeps found = find_unique-update id change table r keeps found

pub fail_all-hit :
    (writes : String → Bool) (change : Row → Row) (rows table : List Row) (id : String) (r : Row)
    → KeepsId change
    → Distinct (row_ids rows)
    → Memᴰ id (row_ids rows)
    → find_unique table id ≡ some r
    → find_unique (fail_all writes change rows table).1 id ≡ some (failed_if (writes id) change r)
unfolding fail_all
fail_all-hit writes change [] table id r keeps d m found = absurd (Memᴰ.not-nil m)
fail_all-hit writes change (x ∷ rows) table id r keeps d m found = elim (Memᴰ.cases_cons m) [
  | inl first ↦
      let own = subst (λ i. find_unique table i ≡ some r) first found in
      subst
        (λ (i : String).
          find_unique (fail_all writes change (x ∷ rows) table).1 i
          ≡ some (failed_if (writes i) change r))
        (sym first)
        (fail_all-miss writes change rows _ x.id keeps d.0
          ∙ step_own (writes x.id) x.id change table r keeps own)
  | inr later ↦
      let other : id ≢ x.id = λ e. d.0 (subst (λ i. Memᴰ i (row_ids rows)) e later) in
      fail_all-hit writes change rows _ id r keeps d.1 later
        (step-other (writes x.id) x.id id change table keeps other ∙ found)
]

fail_all-count :
    (writes : String → Bool) (change : Row → Row) (rows table : List Row)
    → (fail_all writes change rows table).0 ≡ length (keep (λ r. writes r.id) rows)
unfolding fail_all
fail_all-count writes change [] table = refl
fail_all-count writes change (x ∷ rows) table = elim (Bool-cases (writes x.id)) [
  | inl hit ↦ rw (hit, fail_all-count writes change rows (update x.id change table))
  | inr miss ↦ rw (miss, fail_all-count writes change rows table)
]

-- A loop over the rows of a table that pass a test.
fail_kept :
    (writes : String → Bool) (change : Row → Row) (test : Row → Bool) (table : List Row)
    (id : String) (r : Row)
    → KeepsId change
    → Distinct (row_ids table)
    → find_unique table id ≡ some r
    → find_unique (fail_all writes change (keep test table) table).1 id
      ≡ some (failed_if (test r && writes id) change r)
fail_kept writes change test table id r keeps d found = elim (Bool-cases (test r)) [
  | inl hit ↦
      let there =
        subst (λ i. Memᴰ i (row_ids (keep test table))) (find_unique-id table id r found)
          (mem-row_ids (keep test table) r (scanned test table id r found hit)) in
      rw hit (
        fail_all-hit writes change (keep test table) table id r keeps (Distinct-keep test table d)
          there found)
  | inr miss ↦ rw miss (
      fail_all-miss writes change (keep test table) table id keeps
        (not-scanned test table id r d found miss)
      ∙ found)
]

mark_timed_out-KeepsId : (s now : ℕ) → KeepsId (mark_timed_out s now)
unfolding mark_timed_out
mark_timed_out-KeepsId s now r = refl

mark_overdue-KeepsId : (h now : ℕ) → KeepsId (mark_overdue h now)
unfolding mark_overdue
mark_overdue-KeepsId h now r = refl

-- A row after a sweep of stuck executions, with the sweep's counts.
abbrev pub StuckOutcome : (String → Bool) → ℕ → ℕ → Store → String → Row → Type 0
StuckOutcome writes s now store id r =
    let stuck = keep (is_stuck (suc s) now) store.rows in
    (find_unique (sweep_stuck_executions writes (suc s) now store).1.rows id
      ≡ some (failed_if (is_stuck (suc s) now r && writes id) (mark_timed_out (suc s) now) r))
    × ((sweep_stuck_executions writes (suc s) now store).0
        ≡ ok (record {
          scanned = length stuck;
          marked_failed = length (keep (λ x. writes x.id) stuck);
          errored = 0;
        }))

-- The stuck-execution sweep marks exactly the running rows that started more than the timeout ago
-- failed, except those whose update raises; it counts the rows that it found and those that it marked.
pub sweep_stuck_executions_correct :
    (writes : String → Bool) (s now : ℕ) (store : Store) (id : String) (r : Row)
    → Distinct (row_ids store.rows)
    → find_unique store.rows id ≡ some r
    → StuckOutcome writes s now store id r
unfolding sweep_stuck_executions
sweep_stuck_executions_correct writes s now store id r d found = (
  fail_kept writes _ (is_stuck (suc s) now) store.rows id r (mark_timed_out-KeepsId (suc s) now) d
      found,
  rw (
      fail_all-count writes (mark_timed_out (suc s) now) (keep (is_stuck (suc s) now) store.rows)
        store.rows),
)

-- A row after a sweep of waiting approvals, with the sweep's counts.
abbrev pub OverdueOutcome :
    (Value → Option ℕ) → (String → Bool) → ℕ → ℕ → Store → String → Row → Type 0
OverdueOutcome parse writes h now store id r =
    let waiting = keep (λ x. is_waiting x.status) store.rows in
    let late = keep (is_overdue parse (suc h) now) waiting in
    (find_unique (sweep_expired_approvals parse writes (suc h) now store).1.rows id
      ≡ some (
          failed_if ((is_waiting r.status && is_overdue parse (suc h) now r) && writes id)
            (mark_overdue (suc h) now) r))
    × ((sweep_expired_approvals parse writes (suc h) now store).0
        ≡ ok (record {
          scanned = length waiting;
          marked_failed = length (keep (λ x. writes x.id) late);
          errored = 0;
        }))

-- The approval sweep marks exactly the rows that wait for an approval and whose pause, as
-- `datetime.fromisoformat` reads it, is longer ago than the timeout failed, except those whose update
-- raises; it counts the waiting rows.
pub sweep_expired_approvals_correct :
    (parse : Value → Option ℕ) (writes : String → Bool) (h now : ℕ) (store : Store) (id : String)
    (r : Row)
    → Distinct (row_ids store.rows)
    → find_unique store.rows id ≡ some r
    → OverdueOutcome parse writes h now store id r
unfolding sweep_expired_approvals
sweep_expired_approvals_correct parse writes h now store id r d found = (
  rw (keep-keep (λ x. is_waiting x.status) (is_overdue parse (suc h) now) store.rows)
      (fail_kept writes _ _ store.rows id r (mark_overdue-KeepsId (suc h) now) d found),
  rw (
      fail_all-count writes (mark_overdue (suc h) now)
        (keep (is_overdue parse (suc h) now) (keep (λ x. is_waiting x.status) store.rows))
        store.rows),
)

-- The sweep writes by id alone: a row that another request has ended since the snapshot was taken is
-- marked failed all the same, if its update goes through.
pub fail_all_stale :
    (writes : String → Bool) (s now : ℕ) (snapshot table : List Row) (seen r : Row)
    → Distinct (row_ids snapshot)
    → Memᴰ seen (keep (is_stuck s now) snapshot)
    → find_unique table seen.id ≡ some r
    → writes seen.id ≡ true
    → (after : Row) × (find_unique
          (fail_all writes (mark_timed_out s now) (keep (is_stuck s now) snapshot) table).1
          seen.id
        ≡ some after)
      × (after.status ≡ failed)
unfolding mark_timed_out
fail_all_stale writes s now snapshot table seen r d m found w = (
  mark_timed_out s now r,
  fail_all-hit writes (mark_timed_out s now) (keep (is_stuck s now) snapshot) table seen.id r
        (mark_timed_out-KeepsId s now) (Distinct-keep (is_stuck s now) snapshot d)
        (mem-row_ids (keep (is_stuck s now) snapshot) seen m) found
      ∙ ground arith,
  refl,
)
