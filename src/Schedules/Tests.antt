-- ===== src/Schedules/Tests.antt =====
-- The theorems on schedules at one that runs every five minutes.
use quality_flow.Base.{
  ℕ, refl, ◌≡◌, true, String, none, some, List, [], ◌∷◌, All, Result, ok, text_dec, arith,
}
use quality_flow.Base.Text.{strip, lstrip, rstrip, lower}
use quality_flow.Schedules.Next.{frequency_delta, compute_next_run_at}
use quality_flow.Schedules.Next.Bounds.{IsNextRun, compute_next_run_at-IsNextRun}
use quality_flow.Schedules.Trigger.{Schedule, SuiteRow, TriggerResult, refresh_states}
use quality_flow.Schedules.Process.{get_due_schedules, schedule_ids, process_due_schedules}
use quality_flow.Schedules.Process.Plan.{IsScheduled}
use quality_flow.Schedules.Process.Cleared.{result_ids, process_due_schedules-clears}

compute_next_run_at-IsNextRun_example :
    (true ≡ true)
    × (delta : ℕ) × (frequency_delta " Minutes" 5 ≡ ok delta)
    × IsNextRun (some 100) none 900 delta 300000900
unfolding compute_next_run_at frequency_delta strip lstrip rstrip lower text_dec
compute_next_run_at-IsNextRun_example =
    compute_next_run_at-IsNextRun true " Minutes" 5 (some 100) none 900 none 300000900 refl

abbrev schedule : Schedule
schedule = record {
  id = "a";
  test_suite_id = "s";
  active = true;
  frequency_unit = "minutes";
  frequency_value = 5;
  start_at = some 100;
  end_at = none;
  next_run_at = some 500;
  last_run_at = none;
  last_status = "idle";
  last_execution_id = none;
  last_error_message = none;
  updated_at = 0;
}

schedule-IsScheduled : IsScheduled ("s" ∷ []) 900 schedule
unfolding strip lstrip rstrip lower text_dec
schedule-IsScheduled = record {
  valid = refl;
  in_range = refl;
  begun = λ t e. ground arith;
  has_suite = refl;
}

abbrev can_start : Schedule → Result String
can_start s = ok "e"

abbrev no_executions : String → List SuiteRow
no_executions id = []

process_due_schedules-clears_example :
    (results : List TriggerResult) × (after : List Schedule) × (process_due_schedules can_start
        ("s" ∷ [])
        no_executions
        900
        900
        []
        (schedule ∷ [])
      ≡ (ok results, after))
    × (result_ids results
        ≡ schedule_ids (get_due_schedules 900 (refresh_states [] 900 (schedule ∷ []))))
    × (get_due_schedules 900 after ≡ [])
    × All (IsScheduled ("s" ∷ []) 900) after
process_due_schedules-clears_example =
    process_due_schedules-clears can_start ("s" ∷ []) no_executions 900 900 (λ s. refl) []
      (schedule ∷ []) (schedule-IsScheduled, tt) (tt, tt)
