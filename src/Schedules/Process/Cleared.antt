-- ===== src/Schedules/Process/Cleared.antt =====
-- A pass over the schedules that are due leaves none that is due.
use quality_flow.Base.{
  ℕ, ◌≡◌, refl, sym, ap, subst, ◌∙◌, true, false, ◌||◌, inl, inr, Bool-cases, String, some, List,
  [], ◌∷◌, ◌==◌, one_of, All, if_intro, arith, Result, ok, is_ok,
}
use quality_flow.Schedules.Trigger.{
  Schedule, SuiteRow, TriggerResult, Outcome, update_fields, refresh_states, trigger_found,
  trigger_body, trigger_schedule, managed_session,
}
use quality_flow.Schedules.Process.{
  is_due, insert_by_run, runs_before, get_due_schedules, schedule_ids, Processed, and_result,
  and_then, trigger_all, process_due_schedules,
}
use quality_flow.Schedules.Process.Plan.{IsScheduled}
use quality_flow.Schedules.Process.Settled.{trigger_found-Concludes}
use quality_flow.Schedules.Process.Pending.{
  HasUniqueIds, find_schedule-IsOnly, find_schedule-some, IsPending, table-IsPending,
  update-schedule_ids, refresh-schedule_ids, refresh-IsScheduled,
}

abbrev pub result_ids : List TriggerResult → List String
result_ids [] = []
result_ids (r ∷ rs) = r.id ∷ result_ids rs

insert_by_run-ids :
    (i : String) (s : Schedule) (rs : List Schedule)
    → one_of i (schedule_ids (insert_by_run s rs)) ≡ (i == s.id || one_of i (schedule_ids rs))
unfolding insert_by_run
insert_by_run-ids i s [] = refl
insert_by_run-ids i s (r ∷ rs) =
    if_intro {A = List Schedule}
      (λ x. one_of i (schedule_ids x) ≡ (i == s.id || one_of i (schedule_ids (r ∷ rs))))
      (runs_before r s) _ _ (λ _. ground (arith, insert_by_run-ids i s rs)) (λ _. refl)

-- The ids that are due are those of the rows that are due.
get_due_schedules_listed :
    (now : ℕ) (ids : List String) (table : List Schedule)
    → ((i : String)
        → one_of i (schedule_ids (get_due_schedules now table)) ≡ true
        → one_of i ids ≡ true)
    → All (λ p. is_due now p ≡ true → one_of p.id ids ≡ true) table
unfolding get_due_schedules
get_due_schedules_listed now ids [] h = tt
get_due_schedules_listed now ids (p ∷ ps) h = elim (Bool-cases (is_due now p)) [
  | inl due ↦ (
    λ _. h p.id (rw due (ground (arith, insert_by_run-ids p.id p (get_due_schedules now ps)))),
    get_due_schedules_listed now ids ps
        (λ i o. h i (rw due (ground (arith, insert_by_run-ids i p (get_due_schedules now ps), o)))),
  )
  | inr later ↦ (λ due. ground arith, get_due_schedules_listed now ids ps (λ i o. h i (rw later o)))
]

get_due_schedules_known :
    (now : ℕ) (table : List Schedule) (i : String)
    → one_of i (schedule_ids (get_due_schedules now table)) ≡ true
    → one_of i (schedule_ids table) ≡ true
unfolding get_due_schedules
get_due_schedules_known now [] i o = o
get_due_schedules_known now (p ∷ ps) i o =
    ground
      (arith, insert_by_run-ids i p (get_due_schedules now ps), get_due_schedules_known now ps i)

All-one_of :
    (P : String → Type 0) (ids : List String)
    → ((i : String) → one_of i ids ≡ true → P i)
    → All P ids
All-one_of P [] h = tt
All-one_of P (id ∷ ids) h = (h id (ground arith), All-one_of P ids (λ i o. h i (ground (arith, o))))

All-IsPending :
    (suites : List String) (now : ℕ) (ids : List String) (table : List Schedule)
    → All (IsScheduled suites now) table
    → All (λ p. is_due now p ≡ true → one_of p.id ids ≡ true) table
    → All (IsPending suites now ids) table
All-IsPending suites now ids [] h k = tt
All-IsPending suites now ids (p ∷ ps) (h, hs) (k, ks) =
    (record { scheduled = h; listed = k }, All-IsPending suites now ids ps hs ks)

pending-get_due_schedules :
    (suites : List String) (now : ℕ) (table : List Schedule)
    → All (IsPending suites now []) table
    → get_due_schedules now table ≡ []
unfolding get_due_schedules
pending-get_due_schedules suites now [] h = refl
pending-get_due_schedules suites now (p ∷ ps) (h, hs) =
    if_intro {A = List Schedule} (λ x. x ≡ []) (is_due now p) _ _
      (λ due. ground (arith, h.listed due)) (λ _. pending-get_due_schedules suites now ps hs)

pending-IsScheduled :
    (suites : List String) (now : ℕ) (table : List Schedule)
    → All (IsPending suites now []) table
    → All (IsScheduled suites now) table
pending-IsScheduled suites now [] h = tt
pending-IsScheduled suites now (p ∷ ps) (h, hs) =
    (h.scheduled, pending-IsScheduled suites now ps hs)

module _ (execute_test_suite : Schedule → Result String) (suites : List String)
    (executions : String → List SuiteRow) (now clock : ℕ)
    (works : (s : Schedule) → is_ok (execute_test_suite s) ≡ true) where
  -- The outcome of one trigger of a pass.
  record IsTriggered (id : String) (ids : List String) (table : List Schedule) (out : Outcome)
      : Type 0 where
    pub outcome : TriggerResult
    pub after : List Schedule
    pub same : out ≡ (ok outcome, after)
    pub of_id : outcome.id ≡ id
    pub pending : All (IsPending suites now ids) after
    pub keeps_ids : schedule_ids after ≡ schedule_ids table

  trigger_schedule-IsTriggered :
      (id : String) (ids : List String) (table : List Schedule)
      → All (IsPending suites now (id ∷ ids)) table
      → HasUniqueIds (schedule_ids table)
      → one_of id (schedule_ids table) ≡ true
      → IsTriggered id ids table
          (trigger_schedule execute_test_suite false now clock suites (executions id) id table)
  unfolding trigger_schedule
  trigger_schedule-IsTriggered id ids table h u o =
      let (s, e, i, p) = find_schedule-some (IsPending suites now (id ∷ ids)) id table o h in
      let c =
        trigger_found-Concludes execute_test_suite suites now s p.scheduled (executions id)
          (refresh_states (executions id) clock table) (works s) in
      let only = find_schedule-IsOnly id s table u e in
      record {
        outcome = c.outcome;
        after = update_fields id c.change (refresh_states (executions id) clock table);
        same =
            ap
              (λ f.
                managed_session table (
                  trigger_body execute_test_suite false now clock suites (executions id) id f
                    table))
              e
            ∙ ap (managed_session table) (known s p.scheduled.has_suite)
            ∙ ap (managed_session table) c.same
            ∙ ap
                (λ k. (
                  ok c.outcome,
                  update_fields k c.change (refresh_states (executions id) clock table),
                ))
                i;
        of_id = c.of_schedule ∙ i;
        pending =
            table-IsPending suites now (executions id) clock id ids s c.change c.settles table h
              only;
        keeps_ids =
            update-schedule_ids suites now (executions id) clock id ids s c.change c.settles table
              only;
      }
    where
      known :
          (s : Schedule)
          → one_of s.test_suite_id suites ≡ true
          → trigger_body execute_test_suite false now clock suites (executions id) id (some s) table
            ≡ trigger_found execute_test_suite false now
                (executions id)
                s
                (refresh_states (executions id) clock table)
      known s has =
          if_intro
            (λ x.
              x
              ≡ trigger_found execute_test_suite false now (executions id) s
                  (refresh_states (executions id) clock table))
            (one_of s.test_suite_id suites) _ _ (λ _. refl) (λ e. ground arith)

  -- The outcome of a pass over ids.
  record IsPassed (ids : List String) (out : Processed execute_test_suite suites executions)
      : Type 0 where
    pub results : List TriggerResult
    pub after : List Schedule
    pub same : out ≡ (ok results, after)
    pub in_order : result_ids results ≡ ids
    pub pending : All (IsPending suites now []) after

  trigger_all-IsPassed :
      (ids : List String) (table : List Schedule)
      → All (IsPending suites now ids) table
      → HasUniqueIds (schedule_ids table)
      → All (λ id. one_of id (schedule_ids table) ≡ true) ids
      → IsPassed ids (trigger_all execute_test_suite suites executions now clock ids table)
  unfolding trigger_all
  trigger_all-IsPassed [] table h u o = record {
    results = [];
    after = table;
    same = refl;
    in_order = refl;
    pending = h;
  }
  trigger_all-IsPassed (id ∷ ids) table h u (o, os) =
      let t = trigger_schedule-IsTriggered id ids table h u o in
      let r =
        trigger_all-IsPassed ids t.after t.pending (subst HasUniqueIds (sym t.keeps_ids) u)
          (subst (λ k. All (λ i. one_of i k ≡ true) ids) (sym t.keeps_ids) os) in
      record {
        results = t.outcome ∷ r.results;
        after = r.after;
        same =
            ap
              (λ x.
                and_then execute_test_suite suites executions x
                  (trigger_all execute_test_suite suites executions now clock ids))
              t.same
            ∙ ap (and_result execute_test_suite suites executions t.outcome) r.same;
        in_order = ap (λ i. i ∷ result_ids r.results) t.of_id ∙ ap (◌∷◌ id) r.in_order;
        pending = r.pending;
      }

  -- Where all schedules are valid, one period of each after the time of the pass there is a date, each
  -- id is there once, and executions can be started, a pass ends without an error: it gives one result for each schedule that was due after the refresh of the
  -- states, in the order of their runs, and then none is due and all are still valid.
  pub process_due_schedules-clears :
      (at_start : List SuiteRow) (table : List Schedule)
      → All (IsScheduled suites now) table
      → HasUniqueIds (schedule_ids table)
      → (results : List TriggerResult) × (after : List Schedule) × (process_due_schedules
            execute_test_suite suites executions now clock at_start table
          ≡ (ok results, after))
        × (result_ids results
            ≡ schedule_ids (get_due_schedules now (refresh_states at_start clock table)))
        × (get_due_schedules now after ≡ [])
        × All (IsScheduled suites now) after
  unfolding process_due_schedules
  process_due_schedules-clears at_start table h u =
      let start = refresh_states at_start clock table in
      let ids = schedule_ids (get_due_schedules now start) in
      let r =
        trigger_all-IsPassed ids start
          (All-IsPending suites now ids start
            (refresh-IsScheduled suites now at_start clock table h)
            (get_due_schedules_listed now ids start (λ i o. o)))
          (subst HasUniqueIds (sym (refresh-schedule_ids at_start clock table)) u)
          (All-one_of _ ids (get_due_schedules_known now start)) in
      (
        r.results,
        r.after,
        r.same,
        r.in_order,
        pending-get_due_schedules suites now r.after r.pending,
        pending-IsScheduled suites now r.after r.pending,
      )
