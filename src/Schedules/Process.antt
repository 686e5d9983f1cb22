-- ===== src/Schedules/Process.antt =====
-- `process_due_schedules`: every schedule that is due is triggered, each in its own transaction.
pub mod Plan
pub mod Settled
pub mod Pending
pub mod Cleared
use quality_flow.Base.{
  ℕ, Bool, true, false, ◌&&◌, ◌||◌, String, Option, none, some, List, [], ◌∷◌, if◌then◌else◌, ltb,
  leb, ◌==ℕ◌, Result, ok, err,
}
use quality_flow.Base.Text.{text_ltb}
use quality_flow.Schedules.Trigger.{
  Schedule, SuiteRow, TriggerResult, Outcome, refresh_states, trigger_schedule,
}

abbrev pub is_reached : Option ℕ → ℕ → Bool
is_reached none now = false
is_reached (some t) now = leb t now

-- The filters of `get_due_schedules`
unfoldable pub is_due : ℕ → Schedule → Bool
is_due now s = s.active && is_reached s.next_run_at now

-- Times are compared first, then ids; a row that is due has a time.
abbrev run_or_zero : Option ℕ → ℕ
run_or_zero none = 0
run_or_zero (some t) = t

abbrev runs_before : Schedule → Schedule → Bool
runs_before a b =
    ltb (run_or_zero a.next_run_at) (run_or_zero b.next_run_at)
    || (run_or_zero a.next_run_at ==ℕ run_or_zero b.next_run_at && text_ltb a.id b.id)

unfoldable pub insert_by_run : Schedule → List Schedule → List Schedule
insert_by_run s [] = s ∷ []
insert_by_run s (r ∷ rs) = if runs_before r s then r ∷ insert_by_run s rs else s ∷ r ∷ rs

-- `get_due_schedules`
unfoldable pub get_due_schedules : ℕ → List Schedule → List Schedule
get_due_schedules now [] = []
get_due_schedules now (s ∷ ss) =
    let rest = get_due_schedules now ss in if is_due now s then insert_by_run s rest else rest

abbrev pub schedule_ids : List Schedule → List String
schedule_ids [] = []
schedule_ids (s ∷ ss) = s.id ∷ schedule_ids ss

-- The arguments are the start of an execution, the ids of the suites, and the table of executions
-- when a schedule of an id is triggered, which running executions change.
module _ (execute_test_suite : Schedule → Result String) (suites : List String)
    (executions : String → List SuiteRow) where
  abbrev pub Processed : Type 0
  Processed = Result (List TriggerResult) × List Schedule

  abbrev pub and_result : TriggerResult → Processed → Processed
  and_result r (ok rs, table) = (ok (r ∷ rs), table)
  and_result r (err e, table) = (err e, table)

  abbrev pub and_then : Outcome → (List Schedule → Processed) → Processed
  and_then (ok r, table) rest = and_result r (rest table)
  and_then (err e, table) rest = (err e, table)

  -- The loop over the ids; an error ends it.
  unfoldable pub trigger_all : ℕ → ℕ → List String → List Schedule → Processed
  trigger_all now clock [] table = (ok [], table)
  trigger_all now clock (id ∷ ids) table =
      and_then (trigger_schedule execute_test_suite false now clock suites (executions id) id table)
        (trigger_all now clock ids)

  -- `process_due_schedules`, with the table of executions at its start
  unfoldable pub process_due_schedules : ℕ → ℕ → List SuiteRow → List Schedule → Processed
  unfolding trigger_all
  process_due_schedules now clock at_start table =
      let table = refresh_states at_start clock table in
      trigger_all now clock (schedule_ids (get_due_schedules now table)) table
