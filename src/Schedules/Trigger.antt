-- ===== src/Schedules/Trigger.antt =====
-- `trigger_schedule` of
-- app/elaborations/services/test_suite_schedules/test_suite_scheduler_service.py, on the table of
-- schedules.
use quality_flow.Base.{
  ℕ, Bool, false, ◌&&◌, ◌||◌, not, String, ◌<>◌, Option, none, some, List, [], ◌∷◌, if◌then◌else◌,
  ◌==◌, one_of, Result, ok, err,
}
use quality_flow.Base.Text.{strip, lower, or_else, or_empty, or_none, is_empty}
use quality_flow.Schedules.Next.{is_before, is_after, compute_next_run_at}

-- A row of the table of schedules.
pub record Schedule : Type 0 where
  pub id : String
  pub test_suite_id : String
  pub active : Bool
  pub frequency_unit : String
  pub frequency_value : ℕ
  pub start_at : Option ℕ
  pub end_at : Option ℕ
  pub next_run_at : Option ℕ
  pub last_run_at : Option ℕ
  pub last_status : String
  pub last_execution_id : Option String
  pub last_error_message : Option String
  pub updated_at : ℕ

-- What a row of the table of executions says.
pub record SuiteRow : Type 0 where
  pub id : String
  pub test_suite_id : String
  pub status : String
  pub error_message : Option String

-- `_serialize_trigger_result`
pub record TriggerResult : Type 0 where
  pub id : String
  pub test_suite_id : String
  pub status : String
  pub execution_id : Option String
  pub message : String

abbrev pub trigger_result : Schedule → String → Option String → String → TriggerResult
trigger_result s status execution_id message = record {
  id = s.id;
  test_suite_id = s.test_suite_id;
  status = status;
  execution_id = execution_id;
  message = message;
}

unfoldable pub find_schedule : String → List Schedule → Option Schedule
find_schedule id [] = none
find_schedule id (s ∷ ss) = if s.id == id then some s else find_schedule id ss

-- `update_fields`; an id is the key of the table.
unfoldable pub update_fields : String → (Schedule → Schedule) → List Schedule → List Schedule
update_fields id f [] = []
update_fields id f (s ∷ ss) = (if s.id == id then f s else s) ∷ update_fields id f ss

unfoldable pub find_execution : String → List SuiteRow → Option SuiteRow
find_execution id [] = none
find_execution id (e ∷ es) = if e.id == id then some e else find_execution id es

-- `has_running_execution`
unfoldable pub has_running_execution : List SuiteRow → String → Bool
has_running_execution [] test_suite_id = false
has_running_execution (e ∷ es) test_suite_id =
    (e.test_suite_id == test_suite_id && e.status == "running")
    || has_running_execution es test_suite_id

-- The state of a running schedule whose execution is found.
abbrev pub conclude : ℕ → Option SuiteRow → Schedule → Schedule
conclude clock none s = s
conclude clock (some e) s = if lower (strip e.status) == "running" then s else record s {
  last_status = or_else (lower (strip e.status)) "error";
  last_error_message = or_none (strip (or_empty e.error_message));
  updated_at = clock;
}

abbrev pub refresh_running : List SuiteRow → ℕ → Option String → Schedule → Schedule
refresh_running executions clock none s = s
refresh_running executions clock (some id) s =
    if is_empty (strip id) then s else conclude clock (find_execution (strip id) executions) s

-- One row in `_refresh_running_schedule_states`, which passes over the schedules that do not run.
unfoldable pub refresh_schedule : List SuiteRow → ℕ → Schedule → Schedule
refresh_schedule executions clock s =
    if s.last_status == "running" then refresh_running executions clock s.last_execution_id s else s

-- `_refresh_running_schedule_states`, at the time of `utc_now`
unfoldable pub refresh_states : List SuiteRow → ℕ → List Schedule → List Schedule
refresh_states executions clock [] = []
refresh_states executions clock (s ∷ ss) =
    refresh_schedule executions clock s ∷ refresh_states executions clock ss

-- `compute_next_run_at` with the schedule's fields
abbrev pub next_run : Schedule → ℕ → Result (Option ℕ)
next_run s now =
    compute_next_run_at s.active s.frequency_unit s.frequency_value s.start_at s.end_at now
      (some now)

-- What a transaction gives, and the table that it leaves before it ends.
abbrev pub Outcome : Type 0
Outcome = Result TriggerResult × List Schedule

-- The updates of the branches of `trigger_schedule`.
abbrev pub expire_fields : ℕ → Schedule → Schedule
expire_fields now s = record s {
  active = false;
  next_run_at = none;
  last_status = "idle";
  updated_at = now;
}

abbrev pub running_message : String
running_message = "Skipped because the suite is already running."

abbrev pub skip_fields : Option ℕ → ℕ → Schedule → Schedule
skip_fields next now s = record s {
  next_run_at = next;
  last_status = "skipped";
  last_error_message = some running_message;
  updated_at = now;
}

abbrev pub failure_fields : Option ℕ → String → ℕ → Schedule → Schedule
failure_fields next message now s = record s {
  next_run_at = next;
  last_status = "error";
  last_error_message = some message;
  updated_at = now;
}

abbrev pub start_fields : Option ℕ → String → ℕ → Schedule → Schedule
start_fields next execution_id now s = record s {
  next_run_at = next;
  last_run_at = some now;
  last_status = "running";
  last_execution_id = some execution_id;
  last_error_message = none;
  updated_at = now;
}

-- `… if bool(schedule.active) else schedule.next_run_at`
abbrev pub skipped_next : Schedule → ℕ → Result (Option ℕ)
skipped_next s now = if s.active then next_run s now else ok s.next_run_at

-- `… if bool(schedule.active) else None`
abbrev pub started_next : Schedule → ℕ → Result (Option ℕ)
started_next s now = if s.active then next_run s now else ok none

abbrev pub skip : Result (Option ℕ) → ℕ → Schedule → List Schedule → Outcome
skip (err e) now s table = (err e, table)
skip (ok next) now s table = (
  ok (trigger_result s "skipped" none running_message),
  update_fields s.id (skip_fields next now) table,
)

-- The branch of an exception ends with `raise`.
abbrev pub fail_to_start : Result (Option ℕ) → String → ℕ → Schedule → List Schedule → Outcome
fail_to_start (err e) message now s table = (err e, table)
fail_to_start (ok next) message now s table =
    (err message, update_fields s.id (failure_fields next message now) table)

abbrev pub conclude_start : Result (Option ℕ) → String → ℕ → Schedule → List Schedule → Outcome
conclude_start (err e) execution_id now s table = (err e, table)
conclude_start (ok next) execution_id now s table = (
  ok (trigger_result s "started" (some execution_id) "Scheduled execution started."),
  update_fields s.id (start_fields next execution_id now) table,
)

abbrev pub start_execution : Result String → ℕ → Schedule → List Schedule → Outcome
start_execution (err message) now s table = fail_to_start (started_next s now) message now s table
start_execution (ok execution_id) now s table =
    conclude_start (started_next s now) execution_id now s table

-- `managed_session`: a transaction that raises leaves the table as it was.
abbrev pub managed_session : List Schedule → Outcome → Outcome
managed_session table (ok r, after) = (ok r, after)
managed_session table (err e, after) = (err e, table)

-- The start of an execution of a schedule's suite gives the execution's id or raises.
module _ (execute_test_suite : Schedule → Result String) where
  -- What follows the refresh of the states.
  unfoldable pub trigger_found : Bool → ℕ → List SuiteRow → Schedule → List Schedule → Outcome
  trigger_found manual now executions s table =
      if not manual && not s.active
      then (ok (trigger_result s "inactive" none "Schedule is inactive."), table)
      else if is_before now s.start_at && not manual
      then (
        ok (trigger_result s "not_due" none "Schedule is not within the active window yet."),
        table,
      )
      else if is_after now s.end_at && not manual
      then (
        ok (trigger_result s "expired" none "Schedule validity window has ended."),
        update_fields s.id (expire_fields now) table,
      )
      else if has_running_execution executions s.test_suite_id
      then skip (skipped_next s now) now s table
      else start_execution (execute_test_suite s) now s table

  abbrev pub trigger_body :
      Bool
      → ℕ
      → ℕ
      → List String
      → List SuiteRow
      → String
      → Option Schedule
      → List Schedule
      → Outcome
  trigger_body manual now clock suites executions id none table =
      (err ("No test suite schedule found with id [ " <> id <> " ]"), table)
  trigger_body manual now clock suites executions id (some s) table =
      if one_of s.test_suite_id suites
      then trigger_found manual now executions s (refresh_states executions clock table)
      else (err ("No test suite found with id [ " <> s.test_suite_id <> " ]"), table)

  -- `trigger_schedule`, given the ids of the suites and the table of executions
  unfoldable pub trigger_schedule :
      Bool → ℕ → ℕ → List String → List SuiteRow → String → List Schedule → Outcome
  trigger_schedule manual now clock suites executions id table =
      managed_session table
        (trigger_body manual now clock suites executions id (find_schedule id table) table)
