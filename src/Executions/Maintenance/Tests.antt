-- ===== src/Executions/Maintenance/Tests.antt =====
-- A sweep request whose first sweep fails.
use composer.Base.{true, false, none, [], ◌∷◌}
use composer.Executions.Samples.{store_of, leased}
use composer.Executions.Store.{Store}
use composer.Executions.Sweeper.{
  sweep_stuck_executions, sweep_expired_approvals, sweep_expired_leases,
}
use composer.Events.{sweep_old_execution_events}
use composer.Executions.Maintenance.{
  SweepSettings, Reads, World, Swept, marked_count, recovered_count, deleted_count, sweep,
}
use composer.Executions.Maintenance.Isolated.{SweptOrNot, sweep_isolated}

abbrev settings : SweepSettings
settings = record {
  execution_stuck_after_seconds = 100;
  approval_wait_timeout_hours = 1;
  execution_max_delivery_attempts = 5;
  execution_events_retention_days = 30;
}

abbrev stuck_fails : Reads
stuck_fails = record { stuck = false; approvals = true; leases = true; events = true }

abbrev calm : World
calm = record {
  parse = λ v. none;
  writes = λ id. true;
  enqueues = λ id. true;
  stuck_now = 20;
  approvals_now = 20;
  leases_now = 20;
  events_now = 20;
}

abbrev swept : Swept
swept = sweep settings stuck_fails calm (store_of (leased ∷ [])) []

sweep_isolated_example :
    (first second : Store) × SweptOrNot false marked_count
      (sweep_stuck_executions calm.writes 100 20 (store_of (leased ∷ [])))
      (store_of (leased ∷ []))
      first
      swept.response.stuck
    × SweptOrNot true marked_count
        (sweep_expired_approvals calm.parse calm.writes 1 20 first)
        first
        second
        swept.response.approvals_expired
    × SweptOrNot true recovered_count
        (sweep_expired_leases calm.writes calm.enqueues 5 20 second)
        second
        swept.store
        swept.response.leases_recovered
    × SweptOrNot true deleted_count
        (sweep_old_execution_events 30 20 [])
        []
        swept.events
        swept.response.events_deleted
sweep_isolated_example = sweep_isolated settings stuck_fails calm (store_of (leased ∷ [])) []
