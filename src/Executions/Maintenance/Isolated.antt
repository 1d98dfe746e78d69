-- ===== src/Executions/Maintenance/Isolated.antt =====
-- The sweeps of one request, each on its own: one that fails does not keep the others from running.
use composer.Base.{
  ℕ, zero, suc, String, ◌≡◌, refl, Bool, true, false, ◌&&◌, Option, none, some, List, ltb, ◌⊎◌, inl,
  inr, arith, Result, ok,
}
use composer.Value.{Value}
use composer.Executions.Store.{Store}
use composer.Executions.Sweeper.{
  sweep_stuck_executions, sweep_expired_approvals, sweep_expired_leases,
}
use composer.Events.{EventRow, sweep_old_execution_events}
use composer.Executions.Maintenance.{
  SweepSettings, Reads, World, isolated, marked_count, recovered_count, deleted_count, after_stuck,
  after_approvals, after_leases, after_retention, sweep,
}

-- A sweep that ran to its end, its counter taken from its result; or a null counter and no write.
abbrev pub SweptOrNot :
    {E R S : Type 0} → Bool → (R → ℕ) → Result E R × S → S → S → Option ℕ → Type 0
SweptOrNot {E} {R} runs counted outcome before after counter =
    ((runs ≡ true) × ((r : R) × (outcome ≡ (ok r, after)) × (counter ≡ some (counted r))))
    ⊎ ((runs ≡ false) × (after ≡ before) × (counter ≡ none))

module _ (writes enqueues : String → Bool) (parse : Value → Option ℕ) (now : ℕ) where
  stuck_sweep :
      (reads : Bool) (after : ℕ) (store : Store)
      → let outcome = sweep_stuck_executions writes after now store in
        let swept = isolated reads marked_count outcome store in
        SweptOrNot (reads && ltb 0 after) marked_count outcome store swept.1 swept.0
  unfolding isolated sweep_stuck_executions
  stuck_sweep false after store = inr (refl, refl, refl)
  stuck_sweep true zero store = inr (refl, refl, refl)
  stuck_sweep true (suc after) store = inl (ground arith, (_, refl, refl))

  approvals_sweep :
      (reads : Bool) (hours : ℕ) (store : Store)
      → let outcome = sweep_expired_approvals parse writes hours now store in
        let swept = isolated reads marked_count outcome store in
        SweptOrNot (reads && ltb 0 hours) marked_count outcome store swept.1 swept.0
  unfolding isolated sweep_expired_approvals
  approvals_sweep false hours store = inr (refl, refl, refl)
  approvals_sweep true zero store = inr (refl, refl, refl)
  approvals_sweep true (suc hours) store = inl (ground arith, (_, refl, refl))

  leases_sweep :
      (reads : Bool) (attempts : ℕ) (store : Store)
      → let outcome = sweep_expired_leases writes enqueues attempts now store in
        let swept = isolated reads recovered_count outcome store in
        SweptOrNot (reads && ltb 0 attempts) recovered_count outcome store swept.1 swept.0
  unfolding isolated sweep_expired_leases
  leases_sweep false attempts store = inr (refl, refl, refl)
  leases_sweep true zero store = inr (refl, refl, refl)
  leases_sweep true (suc attempts) store = inl (ground arith, (_, refl, refl))

retention_sweep :
    (reads : Bool) (days now : ℕ) (events : List EventRow)
    → let outcome = sweep_old_execution_events days now events in
      let swept = isolated reads deleted_count outcome events in
      SweptOrNot (reads && ltb 0 days) deleted_count outcome events swept.1 swept.0
unfolding isolated sweep_old_execution_events
retention_sweep false days now events = inr (refl, refl, refl)
retention_sweep true zero now events = inr (refl, refl, refl)
retention_sweep true (suc days) now events = inl (ground arith, (_, refl, refl))

-- The four sweeps of a sweep request run one after the other, whatever the others do: each whose query goes
-- through and whose threshold is positive runs to its end on the tables that the ones before it left, writes
-- what it writes alone, and its counter is the one of its result; every other has a null counter and writes
-- nothing. That no other request writes in between is assumed.
pub sweep_isolated :
    (settings : SweepSettings) (reads : Reads) (world : World) (store : Store)
    (events : List EventRow)
    → let swept = sweep settings reads world store events in
      (first second : Store) × SweptOrNot
        (reads.stuck && ltb 0 settings.execution_stuck_after_seconds)
        marked_count
        (sweep_stuck_executions world.writes settings.execution_stuck_after_seconds world.stuck_now
          store)
        store
        first
        swept.response.stuck
      × SweptOrNot
          (reads.approvals && ltb 0 settings.approval_wait_timeout_hours)
          marked_count
          (sweep_expired_approvals world.parse world.writes settings.approval_wait_timeout_hours
            world.approvals_now first)
          first
          second
          swept.response.approvals_expired
      × SweptOrNot
          (reads.leases && ltb 0 settings.execution_max_delivery_attempts)
          recovered_count
          (sweep_expired_leases world.writes world.enqueues settings.execution_max_delivery_attempts
            world.leases_now second)
          second
          swept.store
          swept.response.leases_recovered
      × SweptOrNot
          (reads.events && ltb 0 settings.execution_events_retention_days)
          deleted_count
          (sweep_old_execution_events settings.execution_events_retention_days world.events_now
            events)
          events
          swept.events
          swept.response.events_deleted
unfolding sweep after_stuck after_approvals after_leases after_retention
sweep_isolated settings reads world store events =
    let first = (after_stuck settings reads world store).1 in
    let second = (after_approvals settings reads world first).1 in
    (
      first,
      second,
      stuck_sweep world.writes world.enqueues world.parse world.stuck_now reads.stuck
          settings.execution_stuck_after_seconds store,
      approvals_sweep world.writes world.enqueues world.parse world.approvals_now reads.approvals
          settings.approval_wait_timeout_hours first,
      leases_sweep world.writes world.enqueues world.parse world.leases_now reads.leases
          settings.execution_max_delivery_attempts second,
      retention_sweep reads.events settings.execution_events_retention_days world.events_now events,
    )
