-- ===== src/Executions/Maintenance.antt =====
-- POST /internal/sweep (`sweep` of src/api/internal.py): the four sweeps one after the other, each under
-- its own `except`. `Reads` says whether the first query of each goes through.
pub mod Isolated
mod Tests
use composer.Base.{ℕ, ◌-◌, String, Bool, true, false, Option, none, some, List, Result, ok, err}
use composer.Value.{Value}
use composer.Executions.Store.{Store}
use composer.Executions.Sweeper.{
  SweepResult, SweepError, sweep_stuck_executions, sweep_expired_approvals, sweep_expired_leases,
}
use composer.Events.{EventRow, RetentionError, sweep_old_execution_events}

pub record SweepSettings : Type 0 where
  pub execution_stuck_after_seconds : ℕ
  pub approval_wait_timeout_hours : ℕ
  pub execution_max_delivery_attempts : ℕ
  pub execution_events_retention_days : ℕ

pub record Reads : Type 0 where
  pub stuck : Bool
  pub approvals : Bool
  pub leases : Bool
  pub events : Bool

-- What the sweeps call, and the clock of each of them.
pub record World : Type 0 where
  pub parse : Value → Option ℕ
  pub writes : String → Bool
  pub enqueues : String → Bool
  pub stuck_now : ℕ
  pub approvals_now : ℕ
  pub leases_now : ℕ
  pub events_now : ℕ

-- The response; `none` is null.
pub record SweepResponse : Type 0 where
  pub stuck : Option ℕ
  pub approvals_expired : Option ℕ
  pub leases_recovered : Option ℕ
  pub events_deleted : Option ℕ

-- `try: ... except Exception: None`, for a sweep that its first query lets run or not.
unfoldable pub isolated {ℓ κ} :
    {E R : Type ℓ} {S : Type κ} → Bool → (R → ℕ) → Result E R × S → S → Option ℕ × S
isolated false counted outcome before = (none, before)
isolated true counted (err e, after) before = (none, after)
isolated true counted (ok result, after) before = (some (counted result), after)

-- Every row that a lease sweep scans is counted in one of the two numbers at most, so this does not go
-- below 0.
abbrev pub recovered_count : SweepResult → ℕ
recovered_count result = result.scanned - result.marked_failed - result.errored

abbrev pub marked_count : SweepResult → ℕ
marked_count result = result.marked_failed

abbrev pub deleted_count : ℕ → ℕ
deleted_count n = n

unfoldable pub after_stuck : SweepSettings → Reads → World → Store → Option ℕ × Store
unfolding isolated
after_stuck settings reads world store =
    isolated reads.stuck marked_count
      (sweep_stuck_executions world.writes settings.execution_stuck_after_seconds world.stuck_now
        store)
      store

unfoldable pub after_approvals : SweepSettings → Reads → World → Store → Option ℕ × Store
unfolding isolated
after_approvals settings reads world store =
    isolated reads.approvals marked_count
      (sweep_expired_approvals world.parse world.writes settings.approval_wait_timeout_hours
        world.approvals_now store)
      store

unfoldable pub after_leases : SweepSettings → Reads → World → Store → Option ℕ × Store
unfolding isolated
after_leases settings reads world store =
    isolated reads.leases recovered_count
      (sweep_expired_leases world.writes world.enqueues settings.execution_max_delivery_attempts
        world.leases_now store)
      store

unfoldable pub after_retention :
    SweepSettings → Reads → World → List EventRow → Option ℕ × List EventRow
unfolding isolated
after_retention settings reads world events =
    isolated reads.events deleted_count
      (sweep_old_execution_events settings.execution_events_retention_days world.events_now events)
      events

pub record Swept : Type 0 where
  pub response : SweepResponse
  pub store : Store
  pub events : List EventRow

unfoldable pub sweep : SweepSettings → Reads → World → Store → List EventRow → Swept
unfolding after_stuck after_approvals after_leases after_retention
sweep settings reads world store events =
    let stuck = after_stuck settings reads world store in
    let approvals = after_approvals settings reads world stuck.1 in
    let leases = after_leases settings reads world approvals.1 in
    let retention = after_retention settings reads world events in
    record {
      response = record {
        stuck = stuck.0;
        approvals_expired = approvals.0;
        leases_recovered = leases.0;
        events_deleted = retention.0;
      };
      store = leases.1;
      events = retention.1;
    }
