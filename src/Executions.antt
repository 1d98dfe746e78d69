-- ===== src/Executions.antt =====
-- The life of a workflow execution: its row in the database, the API handlers, the claim by a
-- worker, what the worker writes, and the sweeps.
pub mod Samples
mod Tests
pub mod Store
pub mod Handlers
pub mod Worker
pub mod Sweeper
pub mod Deleting
pub mod Creating
pub mod Emails
pub mod Lifecycle
pub mod Maintenance
