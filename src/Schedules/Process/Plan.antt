-- ===== src/Schedules/Process/Plan.antt =====
-- What a refresh of the state keeps of a schedule.
use quality_flow.Base.{
  ℕ, ◌≡◌, refl, sym, ◌∙◌, true, false, ◌&&◌, not, inl, inr, Bool-cases, String, Option, none, some,
  List, [], ◌∷◌, ◌==◌, ◌==ℕ◌, one_of,
}
use quality_flow.Base.Text.{strip, lower, is_empty}
use quality_flow.Schedules.Next.{minutes, hours, days, is_before, is_empty_window}
use quality_flow.Schedules.Next.Bounds.{is_in_range}
use quality_flow.Schedules.Trigger.{
  Schedule, SuiteRow, refresh_schedule, refresh_running, conclude, find_execution,
}
use quality_flow.Schedules.Process.{is_due}

-- The frequency and the window of a schedule are valid, one period after the time of the pass there
-- is a date, its next run is not before its start, and its suite is in the table.
pub record IsScheduled (suites : List String) (now : ℕ) (s : Schedule) : Type 0 where
  pub valid :
      (not (s.frequency_value ==ℕ 0)
        && not (is_empty_window s.start_at s.end_at)
        && one_of (lower (strip s.frequency_unit)) (minutes ∷ hours ∷ days ∷ []))
      ≡ true
  pub in_range : is_in_range now (lower (strip s.frequency_unit)) s.frequency_value ≡ true
  pub begun : (t : ℕ) → s.next_run_at ≡ some t → is_before t s.start_at ≡ false
  pub has_suite : one_of s.test_suite_id suites ≡ true

-- What a refresh of the state keeps.
pub record SamePlan (s q : Schedule) : Type 0 where
  pub same_id : q.id ≡ s.id
  pub same_suite : q.test_suite_id ≡ s.test_suite_id
  pub same_active : q.active ≡ s.active
  pub same_unit : q.frequency_unit ≡ s.frequency_unit
  pub same_value : q.frequency_value ≡ s.frequency_value
  pub same_start : q.start_at ≡ s.start_at
  pub same_end : q.end_at ≡ s.end_at
  pub same_next : q.next_run_at ≡ s.next_run_at

pub SamePlan-refl : (s : Schedule) → SamePlan s s
SamePlan-refl s = record {
  same_id = refl;
  same_suite = refl;
  same_active = refl;
  same_unit = refl;
  same_value = refl;
  same_start = refl;
  same_end = refl;
  same_next = refl;
}

conclude-SamePlan :
    (clock : ℕ) (e : Option SuiteRow) (s : Schedule) → SamePlan s (conclude clock e s)
conclude-SamePlan clock none s = SamePlan-refl s
conclude-SamePlan clock (some e) s = elim (Bool-cases (lower (strip e.status) == "running")) [
  | inl running ↦ rw running (SamePlan-refl s)
  | inr ended ↦ rw ended (record {
    same_id = refl;
    same_suite = refl;
    same_active = refl;
    same_unit = refl;
    same_value = refl;
    same_start = refl;
    same_end = refl;
    same_next = refl;
  })
]

refresh_running-SamePlan :
    (executions : List SuiteRow) (clock : ℕ) (id : Option String) (s : Schedule)
    → SamePlan s (refresh_running executions clock id s)
refresh_running-SamePlan executions clock none s = SamePlan-refl s
refresh_running-SamePlan executions clock (some id) s = elim (Bool-cases (is_empty (strip id))) [
  | inl empty ↦ rw empty (SamePlan-refl s)
  | inr outcome ↦ rw outcome (conclude-SamePlan clock (find_execution (strip id) executions) s)
]

pub refresh_schedule-SamePlan :
    (executions : List SuiteRow) (clock : ℕ) (s : Schedule)
    → SamePlan s (refresh_schedule executions clock s)
unfolding refresh_schedule
refresh_schedule-SamePlan executions clock s = elim (Bool-cases (s.last_status == "running")) [
  | inl running ↦ rw running (refresh_running-SamePlan executions clock s.last_execution_id s)
  | inr still ↦ rw still (SamePlan-refl s)
]

pub SamePlan-IsScheduled :
    (suites : List String) (now : ℕ) (s q : Schedule)
    → SamePlan s q
    → IsScheduled suites now s
    → IsScheduled suites now q
SamePlan-IsScheduled suites now s q same i = record {
  valid = rw (same.same_value, same.same_unit, same.same_start, same.same_end) i.valid;
  in_range = rw (same.same_unit, same.same_value) i.in_range;
  begun = λ t e. rw same.same_start (i.begun t (sym same.same_next ∙ e));
  has_suite = rw same.same_suite i.has_suite;
}

pub SamePlan-is_due : (now : ℕ) (s q : Schedule) → SamePlan s q → is_due now q ≡ is_due now s
unfolding is_due
SamePlan-is_due now s q same = rw (same.same_active, same.same_next) refl
