-- ===== src/Schedules/Process/Settled.antt =====
-- After its trigger a schedule is not due any more.
use quality_flow.Base.{
  ℕ, ◌≡◌, refl, sym, ap, subst, ◌∙◌, true, false, ◌&&◌, not, inl, inr, Bool-cases, Result-cases,
  String, Option, none, some, List, [], ◌∷◌, if◌then◌else◌, ◌==◌, if_intro, arith, Result, ok, err,
  is_ok,
}
use quality_flow.Schedules.Next.{is_before, is_after}
use quality_flow.Schedules.Next.Bounds.{compute_next_run_at-IsNextRun, compute_next_run_at-is_ok}
use quality_flow.Schedules.Trigger.{
  Schedule, SuiteRow, TriggerResult, trigger_result, Outcome, update_fields, next_run, skipped_next,
  expire_fields, skip_fields, start_fields, running_message, trigger_found, skip, start_execution,
  conclude_start, has_running_execution,
}
use quality_flow.Schedules.Process.{is_due, is_reached}
use quality_flow.Schedules.Process.Plan.{
  IsScheduled, SamePlan, SamePlan-IsScheduled, SamePlan-is_due,
}

-- A change of fields after which a schedule is not due.
pub record Settles (suites : List String) (now : ℕ) (s : Schedule) (f : Schedule → Schedule)
    : Type 0 where
  pub not_due : (q : Schedule) → SamePlan s q → is_due now (f q) ≡ false
  pub scheduled : (q : Schedule) → SamePlan s q → IsScheduled suites now (f q)
  pub keeps_id : (q : Schedule) → (f q).id ≡ q.id

-- A next run that may be written.
pub record IsLater (s : Schedule) (now : ℕ) (next : Option ℕ) : Type 0 where
  pub later : is_reached next now ≡ false
  pub begun : (t : ℕ) → next ≡ some t → is_before t s.start_at ≡ false

pub next_run-IsLater :
    (suites : List String) (s : Schedule) (now : ℕ)
    → IsScheduled suites now s
    → (next : Option ℕ) × (next_run s now ≡ ok next) × IsLater s now next
next_run-IsLater suites s now i = elim (Result-cases (next_run s now)) [
  | inr (e, fails) ↦ ground (
    arith,
    compute_next_run_at-is_ok s.active s.frequency_unit s.frequency_value s.start_at s.end_at now
        i.valid i.in_range,
  )
  | inl (next, e) ↦ (next, e, later next e)
]
  where
    later : (next : Option ℕ) → next_run s now ≡ ok next → IsLater s now next
    later none e = record { later = refl; begun = λ t k. ground arith }
    later (some t) e =
        let (active, delta, found, n) =
          compute_next_run_at-IsNextRun s.active s.frequency_unit s.frequency_value s.start_at
            s.end_at now (some now) t e in
        record {
          later = ground (arith, n.later);
          begun =
              λ u k. subst (λ v. is_before v s.start_at ≡ false) {x = t} (ground arith) n.started;
        }

update_fields_same : (id : String) (table : List Schedule) → update_fields id (λ q. q) table ≡ table
unfolding update_fields
update_fields_same id [] = refl
update_fields_same id (s ∷ ss) = elim (Bool-cases (s.id == id)) [
  | inl same ↦ rw same (ap (◌∷◌ s) (update_fields_same id ss))
  | inr differ ↦ rw differ (ap (◌∷◌ s) (update_fields_same id ss))
]

module _ (execute_test_suite : Schedule → Result String) (suites : List String) (now : ℕ)
    (s : Schedule) (i : IsScheduled suites now s) where
  -- A branch gives a result with the schedule's id, and settles it.
  pub record Concludes (table : List Schedule) (out : Outcome) : Type 0 where
    pub outcome : TriggerResult
    pub change : Schedule → Schedule
    pub of_schedule : outcome.id ≡ s.id
    pub same : out ≡ (ok outcome, update_fields s.id change table)
    pub settles : Settles suites now s change

  -- The updates that set the next run and keep the plan.
  next-Settles :
      (next : Option ℕ) (f : Schedule → Schedule)
      → ((is_reached next now ≡ false) × ((t : ℕ) → next ≡ some t → is_before t s.start_at ≡ false))
      → ((q : Schedule) → SamePlan (record q { next_run_at = next }) (f q))
      → Settles suites now s f
  unfolding is_due
  next-Settles next f (later, begun) keeps = record {
    not_due =
        λ q same. SamePlan-is_due now (record q { next_run_at = next }) (f q) (keeps q) ∙ undue q;
    scheduled = λ q same.
        SamePlan-IsScheduled suites now (record q { next_run_at = next }) (f q) (keeps q)
          (planned q same);
    keeps_id = λ q. (keeps q).same_id;
  }
    where
      undue : (q : Schedule) → is_due now (record q { next_run_at = next }) ≡ false
      undue q = ground (arith, later)

      planned :
          (q : Schedule) → SamePlan s q → IsScheduled suites now (record q { next_run_at = next })
      planned q same =
          let k = SamePlan-IsScheduled suites now s q same i in
          record {
            valid = k.valid;
            in_range = k.in_range;
            begun = λ t e. rw same.same_start (begun t e);
            has_suite = k.has_suite;
          }

  -- A branch without a change, of a schedule that is not due.
  unchanged-Settles : is_due now s ≡ false → Settles suites now s (λ q. q)
  unchanged-Settles undue = record {
    not_due = λ q same. SamePlan-is_due now s q same ∙ undue;
    scheduled = λ q same. SamePlan-IsScheduled suites now s q same i;
    keeps_id = λ q. refl;
  }

  expire-Settles : Settles suites now s (expire_fields now)
  unfolding is_due
  expire-Settles = record {
    not_due = λ q same. refl;
    scheduled = λ q same.
        let k = SamePlan-IsScheduled suites now s q same i in
        record {
          valid = k.valid;
          in_range = k.in_range;
          begun = λ t e. ground arith;
          has_suite = k.has_suite;
        };
    keeps_id = λ q. refl;
  }

  -- Before the start of its window, or where it is inactive, a schedule is not due.
  inactive-is_due : s.active ≡ false → is_due now s ≡ false
  unfolding is_due
  inactive-is_due inactive = rw inactive refl

  early-is_due : is_before now s.start_at ≡ true → is_due now s ≡ false
  unfolding is_due
  early-is_due early = ground (arith, undue s.next_run_at s.start_at early i.begun)
    where
      undue :
          (next start : Option ℕ)
          → is_before now start ≡ true
          → ((t : ℕ) → next ≡ some t → is_before t start ≡ false)
          → is_reached next now ≡ false
      undue none start e b = refl
      undue (some t) none e b = ground arith
      undue (some t) (some start) e b = ground (arith, b t refl)

  unchanged-Concludes :
      (table : List Schedule) (status message : String)
      → is_due now s ≡ false
      → Concludes table (ok (trigger_result s status none message), table)
  unchanged-Concludes table status message undue = record {
    outcome = trigger_result s status none message;
    change = λ q. q;
    of_schedule = refl;
    same =
        ap (λ t. (ok (trigger_result s status none message), t))
          (sym (update_fields_same s.id table));
    settles = unchanged-Settles undue;
  }

  next_eq :
      (other : Result (Option ℕ))
      → s.active ≡ true
      → (if s.active then next_run s now else other) ≡ next_run s now
  next_eq other active =
      if_intro (λ n. n ≡ next_run s now) s.active _ _ (λ e. refl) (λ e. ground arith)

  skip-Concludes :
      (table : List Schedule)
      → s.active ≡ true
      → Concludes table (skip (skipped_next s now) now s table)
  skip-Concludes table active =
      let (next, e, later) = next_run-IsLater suites s now i in
      subst (Concludes table)
        (sym (ap (λ n. skip n now s table) (next_eq (ok s.next_run_at) active ∙ e)))
        (record {
          outcome = trigger_result s "skipped" none running_message;
          change = skip_fields next now;
          of_schedule = refl;
          same = refl;
          settles =
              next-Settles next (skip_fields next now) (later.later, later.begun)
                (λ q. record {
                  same_id = refl;
                  same_suite = refl;
                  same_active = refl;
                  same_unit = refl;
                  same_value = refl;
                  same_start = refl;
                  same_end = refl;
                  same_next = refl;
                });
        })

  start_execution-Concludes :
      (table : List Schedule) (started : Result String)
      → is_ok started ≡ true
      → s.active ≡ true
      → Concludes table (start_execution started now s table)
  start_execution-Concludes table (err e) works active = ground arith
  start_execution-Concludes table (ok id) works active =
      let (next, e, later) = next_run-IsLater suites s now i in
      subst (Concludes table)
        (sym (ap (λ n. conclude_start n id now s table) (next_eq (ok none) active ∙ e)))
        (record {
          outcome = trigger_result s "started" (some id) "Scheduled execution started.";
          change = start_fields next id now;
          of_schedule = refl;
          same = refl;
          settles =
              next-Settles next (start_fields next id now) (later.later, later.begun)
                (λ q. record {
                  same_id = refl;
                  same_suite = refl;
                  same_active = refl;
                  same_unit = refl;
                  same_value = refl;
                  same_start = refl;
                  same_end = refl;
                  same_next = refl;
                });
        })

  pub trigger_found-Concludes :
      (executions : List SuiteRow) (table : List Schedule)
      → is_ok (execute_test_suite s) ≡ true
      → Concludes table (trigger_found execute_test_suite false now executions s table)
  unfolding trigger_found
  trigger_found-Concludes executions table works =
      if_intro (Concludes table) (not s.active) _ _
        (λ e. unchanged-Concludes table _ _ (inactive-is_due (ground arith)))
        (λ active.
          if_intro (Concludes table) (is_before now s.start_at && true) _ _
            (λ e. unchanged-Concludes table _ _ (early-is_due (ground arith)))
            (λ _.
              if_intro (Concludes table) (is_after now s.end_at && true) _ _
                (λ _. record {
                  outcome = trigger_result s "expired" none "Schedule validity window has ended.";
                  change = expire_fields now;
                  of_schedule = refl;
                  same = refl;
                  settles = expire-Settles;
                })
                (λ _.
                  if_intro (Concludes table) (has_running_execution executions s.test_suite_id) _ _
                    (λ _. skip-Concludes table (ground arith))
                    (λ _.
                      start_execution-Concludes table (execute_test_suite s) works
                        (ground arith)))))
