-- ===== src/Executions/Sweeper/Recovery.antt =====
-- `sweep_expired_leases`: no execution is lost between its lease and the queue.
use mathlib.Core.List.Memᴰ
use composer.Base.{
  ◌↔◌, ◌<◌, Option-cases, ℕ, suc, String, ◌≡◌, refl, ◌≢◌, Bool, true, false, some, List, [], ◌∷◌,
  Memᴰ, Distinct, keep, Bool-cases, ◌⊎◌, inl, inr, ◌==◌, eq_iff, sym, subst, ◌∙◌, arith, leb,
}
use composer.Executions.Store.{Row, Store, Task, find_unique, is_running}
use composer.Executions.Store.Queries.{row_ids, find_unique-id}
use composer.Executions.Worker.{claimable, claim}
use composer.Executions.Sweeper.{
  lease_expired, is_lost, clear_lease, sweep_lease, count_fate, SweepResult, sweep_leases,
  sweep_expired_leases,
}
use composer.Executions.Sweeper.Scan.{Distinct-keep, mem-row_ids, not-scanned, scanned}
use composer.Executions.Sweeper.Leases.{
  recovery_task, Settled, sweep_lease_settles, sweep_lease-Untouched,
}
use composer.Executions.Worker.{lease_free}
use composer.Executions.Worker.Claiming.{claim_wins}

pub apart : (a b : String) → a ≢ b → (a == b) ≡ false
apart a b h = elim (Bool-cases (a == b)) [
  | inl same ↦ absurd (h ((eq_iff a b).0 same))
  | inr other ↦ other
]

-- A row of another id than those of the snapshot.
sweep_leases-other :
    (writes enqueues : String → Bool) (max_attempts now : ℕ) (rows : List Row)
    (result : SweepResult) (store : Store) (id : String)
    → ¬ Memᴰ id (row_ids rows)
    → find_unique (sweep_leases writes enqueues max_attempts now rows result store).1.rows id
      ≡ find_unique store.rows id
unfolding sweep_leases
sweep_leases-other writes enqueues max_attempts now [] result store id h = refl
sweep_leases-other writes enqueues max_attempts now (r ∷ rows) result store id h =
    sweep_leases-other writes enqueues max_attempts now rows _ _ id (λ m. h (Memᴰ.tail m))
    ∙ (sweep_lease-Untouched (writes r.id) (enqueues r.id) max_attempts now r store).0 id
        (apart id r.id (λ e. h (Memᴰ.head e)))

sweep_leases-tasks :
    (writes enqueues : String → Bool) (max_attempts now : ℕ) (rows : List Row)
    (result : SweepResult) (store : Store) (t : Task)
    → Memᴰ t store.tasks
    → Memᴰ t (sweep_leases writes enqueues max_attempts now rows result store).1.tasks
unfolding sweep_leases
sweep_leases-tasks writes enqueues max_attempts now [] result store t m = m
sweep_leases-tasks writes enqueues max_attempts now (r ∷ rows) result store t m =
    sweep_leases-tasks writes enqueues max_attempts now rows _ _ t
      ((sweep_lease-Untouched (writes r.id) (enqueues r.id) max_attempts now r store).1 t m)

-- Later steps on other rows keep what a step has settled.
Settled-later :
    (written enqueued : Bool) (max_attempts now : ℕ) (r : Row) (before after : Store)
    → find_unique after.rows r.id ≡ find_unique before.rows r.id
    → ((t : Task) → Memᴰ t before.tasks → Memᴰ t after.tasks)
    → Settled written enqueued max_attempts now r before
    → Settled written enqueued max_attempts now r after
Settled-later written enqueued max_attempts now r before after same tasks (inl (last, w, found)) =
    inl (last, w, same ∙ found)
Settled-later written enqueued max_attempts now r before after same tasks
      (inr (inl (again, e, w, found, queued))) =
    inr (inl (again, e, w, same ∙ found, tasks _ queued))
Settled-later written enqueued max_attempts now r before after same tasks (inr (inr (why, found))) =
    inr (inr (why, same ∙ found))

sweep_leases_settle :
    (writes enqueues : String → Bool) (max_attempts now : ℕ) (rows : List Row)
    (result : SweepResult) (store : Store) (r : Row)
    → Distinct (row_ids rows)
    → Memᴰ r rows
    → find_unique store.rows r.id ≡ some r
    → Settled
        (writes r.id)
        (enqueues r.id)
        max_attempts
        now
        r
        (sweep_leases writes enqueues max_attempts now rows result store).1
unfolding sweep_leases
sweep_leases_settle writes enqueues max_attempts now [] result store r d m found =
    absurd (Memᴰ.not-nil m)
sweep_leases_settle writes enqueues max_attempts now (x ∷ rows) result store r d m found =
    let next = sweep_lease (writes x.id) (enqueues x.id) max_attempts now x store in
    let result' = count_fate next.0 result in
    let final = (sweep_leases writes enqueues max_attempts now rows result' next.1).1 in
    elim (Memᴰ.cases_cons m) [
      | inl first ↦
          let own = subst (λ (y : Row). find_unique store.rows y.id ≡ some y) first found in
          subst
            (λ (y : Row).
              Settled (writes y.id) (enqueues y.id) max_attempts now y
                (sweep_leases writes enqueues max_attempts now rows result' next.1).1)
            (sym first)
            (Settled-later (writes x.id) (enqueues x.id) max_attempts now x next.1 final
              (sweep_leases-other writes enqueues max_attempts now rows result' next.1 x.id d.0)
              (sweep_leases-tasks writes enqueues max_attempts now rows result' next.1)
              (sweep_lease_settles (writes x.id) (enqueues x.id) max_attempts now x store own))
      | inr later ↦
          let other =
            apart r.id x.id
              (λ e. d.0 (subst (λ i. Memᴰ i (row_ids rows)) e (mem-row_ids rows r later))) in
          sweep_leases_settle writes enqueues max_attempts now rows result' next.1 r d.1 later (
            (sweep_lease-Untouched (writes x.id) (enqueues x.id) max_attempts now x store).0 r.id
              other
            ∙ found)
    ]

-- A row whose worker is taken for dead: running under a lease that has run out.
abbrev pub Lost : ℕ → Row → Type 0
Lost now r =
    (is_running r.status ≡ true)
    × (expires : ℕ) × (r.lease_expires_at ≡ some expires)
    × (expires < now)

pub is_lost_iff : (now : ℕ) (r : Row) → (is_lost now r ≡ true) ↔ Lost now r
unfolding is_lost lease_expired
is_lost_iff now r = elim (Option-cases r.lease_expires_at) [
  | inl free ↦ (λ h. ground (arith, free), λ (running, expires, leased, past). cc (free, leased))
  | inr (expires, leased) ↦ (
    λ h. (ground arith, expires, leased, ground arith),
    λ (running, expires', leased', past). ground (arith, running, leased', past),
  )
]

-- A row after a lease sweep.
abbrev pub LeaseOutcome : (String → Bool) → (String → Bool) → ℕ → ℕ → Store → String → Row → Type 0
LeaseOutcome writes enqueues attempts now store id r =
    (Lost now r
      × Settled (writes id) (enqueues id) (suc attempts) now r
          (sweep_expired_leases writes enqueues (suc attempts) now store).1)
    ⊎ ((¬ Lost now r)
        × (find_unique (sweep_expired_leases writes enqueues (suc attempts) now store).1.rows id
            ≡ some r))

-- A lease sweep settles every running row whose lease has run out (it is dead-lettered after the last
-- attempt, queued again with its lease cleared, or unchanged when its update or its enqueueing raised),
-- and leaves every other row as it was.
pub sweep_expired_leases_correct :
    (writes enqueues : String → Bool) (attempts now : ℕ) (store : Store) (id : String) (r : Row)
    → Distinct (row_ids store.rows)
    → find_unique store.rows id ≡ some r
    → LeaseOutcome writes enqueues attempts now store id r
unfolding sweep_expired_leases
sweep_expired_leases_correct writes enqueues attempts now store id r d found =
    let own : r.id ≡ id = find_unique-id store.rows id r found in
    elim (Bool-cases (is_lost now r)) [
      | inl lost ↦ inl (
        (is_lost_iff now r).0 lost,
        subst
            (λ (i : String).
              Settled (writes i) (enqueues i) (suc attempts) now r
                (sweep_expired_leases writes enqueues (suc attempts) now store).1)
            own
            (sweep_leases_settle writes enqueues (suc attempts) now (keep (is_lost now) store.rows)
              _ store r (Distinct-keep (is_lost now) store.rows d)
              (scanned (is_lost now) store.rows id r found lost)
              (subst (λ i. find_unique store.rows i ≡ some r) (sym own) found)),
      )
      | inr fine ↦ inr (
        λ (l : Lost now r). cc ((is_lost_iff now r).1 l, fine),
        sweep_leases-other writes enqueues (suc attempts) now (keep (is_lost now) store.rows) _
              store id (not-scanned (is_lost now) store.rows id r d found fine)
            ∙ found,
      )
    ]

clear_lease-claimable :
    (now : ℕ) (r : Row) → is_running r.status ≡ true → claimable now (clear_lease r) ≡ true
unfolding claimable clear_lease lease_free
clear_lease-claimable now r h = ground arith

-- An execution whose worker died before the last attempt is claimed by the next delivery after the sweep,
-- if the sweep's Cloud Tasks call and its update go through; the task for that delivery is in the queue.
pub sweep_then_claim :
    (writes enqueues : String → Bool) (attempts now : ℕ) (store : Store) (id : String) (r : Row)
    (worker : String) (later handler_now seconds : ℕ)
    → Distinct (row_ids store.rows)
    → find_unique store.rows id ≡ some r
    → Lost now r
    → leb (suc attempts) r.delivery_attempts ≡ false
    → writes id ≡ true
    → enqueues id ≡ true
    → Memᴰ (recovery_task r) (sweep_expired_leases writes enqueues (suc attempts) now store).1.tasks
      × ((claim true id worker later handler_now seconds
            (sweep_expired_leases writes enqueues (suc attempts) now store).1).0
          ≡ true)
sweep_then_claim writes enqueues attempts now store id r worker later handler_now seconds d found
      lost more w e =
    let after = (sweep_expired_leases writes enqueues (suc attempts) now store).1 in
    let own : r.id ≡ id = find_unique-id store.rows id r found in
    elim (sweep_expired_leases_correct writes enqueues attempts now store id r d found) [
      | inr (fine, same) ↦ absurd (fine lost)
      | inl (lost', inl (last, w', dead_row)) ↦ cc (more, last)
      | inl (lost', inr (inr (inl unwritten, same))) ↦ cc (w, unwritten)
      | inl (lost', inr (inr (inr (more', refused), same))) ↦ cc (e, refused)
      | inl (lost', inr (inl (more', e', w', cleared, queued))) ↦ (
        queued,
        claim_wins id worker later handler_now seconds after (clear_lease r)
            (subst (λ i. find_unique after.rows i ≡ some (clear_lease r)) own cleared)
            (clear_lease-claimable later r lost.0),
      )
    ]
