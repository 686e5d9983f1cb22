-- ===== src/Command.antt =====
-- The commands of a suite item: their contracts, the policy that they are held to, and the loop
-- that executes them (app/elaborations/services/operations, and the context variables of
-- app/elaborations/services/suite_runs/execution_runtime_context.py).
pub mod Scope
pub mod Contract
pub mod Policy
pub mod Runtime
pub mod Execute
mod Tests
