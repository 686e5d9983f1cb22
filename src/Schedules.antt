-- ===== src/Schedules.antt =====
-- The schedules of suites: when one is due, what its trigger does, and the next run.
-- app/elaborations/services/alembic/test_suite_schedule_service.py and
-- app/elaborations/services/test_suite_schedules/test_suite_scheduler_service.py
pub mod Next
pub mod Trigger
pub mod Process
mod Tests
