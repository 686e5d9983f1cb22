-- ===== src/Context.antt =====
-- The run context of app/elaborations/services/suite_runs/run_context.py.
pub mod Store
pub mod Paths
pub mod Assign
pub mod Record
pub mod Access
pub mod Binding
pub mod Payload
mod Tests
