-- ===== src/Suite.antt =====
-- The execution of a test suite: app/elaborations/services/test_suites and the sources that its
-- items see (app/elaborations/services/suite_source_registry.py).
pub mod Item
pub mod Sources
pub mod ItemRun
pub mod Run
mod Tests
