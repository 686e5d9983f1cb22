-- ===== src/Suite/Run.antt =====
-- `_execute` of app/elaborations/services/test_suites/test_suite_executor_thread.py: the hooks and
-- the tests of a suite, in order, in one transaction.
pub mod Trace
pub mod Order
pub mod Shape
pub mod Success
pub mod Report
use quality_flow.Base.{
  ℕ, suc, Bool, true, false, ◌&&◌, ◌||◌, String, ◌<>◌, Option, none, some, List, [], ◌∷◌, length,
  if◌then◌else◌, ◌==◌, Result, ok, err,
}
use quality_flow.Base.Dict.{Dict}
use quality_flow.Base.Text.{upper, or_else, or_empty, or_none, is_empty}
use quality_flow.Context.Store.{Value, ref, dict, Store, alloc}
use quality_flow.Context.Record.{Memory, create_run_context}
use quality_flow.Context.Binding.{reset_local_context}
use quality_flow.Command.Policy.{CommandConfig}
use quality_flow.Command.Runtime.{ExecutionContext, no_execution, bind_execution_context}
use quality_flow.Command.Execute.{
  Status, success, error, Event, suite_started, suite_progress, suite_finished, Machine,
  ExecutionResult,
}
use quality_flow.Suite.Item.{SuiteItem}
use quality_flow.Suite.Sources.{build_visible_sources}
use quality_flow.Suite.ItemRun.{ItemExecution, World, publish, execute_item}

-- `TestSuiteExecutionInput`, with what the database holds of the suite.
pub record SuiteInput (Config : Type 0) : Type 0 where
  pub execution_id : String
  pub test_suite_id : String
  pub event : Value
  pub vars_init : Value
  pub invocation_id : Option String
  pub target_suite_item_id : Option String
  pub before_all : Option (SuiteItem Config)
  pub before_each : Option (SuiteItem Config)
  pub after_each : Option (SuiteItem Config)
  pub after_all : Option (SuiteItem Config)
  pub tests : List (SuiteItem Config)

-- The variables of `_execute`.
pub record Run : Type 0 where
  pub world : World
  pub execution_position : ℕ
  pub executed_tests : ℕ
  pub any_error : Bool
  pub first_error_message : String

-- The row of the suite's execution when it has ended.
pub record SuiteExecution : Type 0 where
  pub status : Status
  pub error_message : Option String

find_test : {Config : Type 0} → String → List (SuiteItem Config) → Option (SuiteItem Config)
find_test target [] = none
find_test target (test ∷ tests) = if test.id == target then some test else find_test target tests

not_found : String → String
not_found target = "Test with id '" <> target <> "' not found in test suite"

abbrev resolve_target :
    {Config : Type 0} → String → List (SuiteItem Config) → Result (List (SuiteItem Config))
resolve_target target tests = elim (find_test target tests) [
  | some test ↦ ok (test ∷ [])
  | none ↦ err (not_found target)
]

-- `_resolve_tests_to_execute`
unfoldable pub resolve_tests_to_execute :
    {Config : Type 0} → List (SuiteItem Config) → Option String → Result (List (SuiteItem Config))
unfolding find_test not_found
resolve_tests_to_execute tests none = ok tests
resolve_tests_to_execute tests (some target) =
    if is_empty target then ok tests else resolve_target target tests

-- A failure is counted, and its message kept unless there is one already.
abbrev pub note_failure : Option String → Run → Run
note_failure none r = r
note_failure (some e) r = record r {
  any_error = true;
  first_error_message = or_else r.first_error_message e;
}

abbrev pub has_failed : Option String → Bool
has_failed none = false
has_failed (some _) = true

abbrev pub on_machine : (Machine → Machine) → Run → Run
on_machine f r = record r { world = record (r.world) { machine = f r.world.machine } }

-- `{}`, for an item's local variables.
abbrev pub new_dict : Run → Value × Run
new_dict r =
    let (a, s) = alloc (dict []) r.world.machine.memory.store in
    (ref a, on_machine (λ m. record m { memory = record (m.memory) { store = s } }) r)

abbrev progress : ℕ → Run → Run
progress total r = on_machine (publish (suite_progress r.executed_tests total)) r

abbrev pub aborts : {Config : Type 0} → SuiteItem Config → Bool
aborts test = upper (or_empty test.on_failure) == "ABORT"

-- What follows a round: an error leaves the loop, and so does `break`.
unfoldable pub continue_tests :
    {Config : Type 0}
    → SuiteItem Config
    → Result Bool
    → Run
    → Result (Unit {0}) × Run
    → Result (Unit {0}) × Run
continue_tests test (err e) r rest = (err e, r)
continue_tests test (ok failed) r rest = if failed && aborts test then (ok tt, r) else rest

-- A test that has been executed is counted and reported.
unfoldable pub count_test : ℕ → Result (Option String) → Run → Result (Option String) × Run
count_test total (err e) r = (err e, r)
count_test total (ok f) r =
    (ok f, progress total (record r { executed_tests = suc r.executed_tests }))

module _ {Config : Type 0} (convert : Config → Result CommandConfig)
    (execute_operation : String → CommandConfig → Value → Memory → Result ExecutionResult × Memory)
    (env : ExecutionContext) (execution : ℕ) (suite : SuiteInput Config) where
  -- One item at the next position, once its sources are known. An error of the sources, found
  -- before the item starts, is no failure of the item: it ends the whole run.
  unfoldable pub run_visible :
      SuiteItem Config → Value → Run → Result (Dict Value) → Result (Option String) × Run
  run_visible item local_vars r (err e) =
      (err e, record r { execution_position = suc r.execution_position })
  run_visible item local_vars r (ok visible) =
      let (a, s) = alloc (dict visible) r.world.machine.memory.store in
      let (failure, w) =
        execute_item convert execute_operation env execution item (suc r.execution_position)
          local_vars (ref a)
          (record (r.world) {
            machine = record (r.world.machine) {
              memory = record (r.world.machine.memory) { store = s };
            };
          }) in
      (
        ok failure,
        note_failure failure
            (record r { world = w; execution_position = suc r.execution_position }),
      )

  unfoldable pub run_item : SuiteItem Config → Value → Run → Result (Option String) × Run
  unfolding run_visible
  run_item item local_vars r =
      run_visible item local_vars r (build_visible_sources suite.before_all suite.before_each item)

  -- A hook, if the suite has it.
  unfoldable pub run_hook : Option (SuiteItem Config) → Value → Run → Result (Option String) × Run
  run_hook none local_vars r = (ok none, r)
  run_hook (some hook) local_vars r = run_item hook local_vars r

  -- The test of a round, counted and reported once it has been executed.
  unfoldable pub run_test : ℕ → SuiteItem Config → Value → Run → Result (Option String) × Run
  unfolding count_test
  run_test total test local_vars r =
      let (failure, r') = run_item test local_vars r in count_test total failure r'

  -- What follows the hook after a test.
  unfoldable pub end_round : Bool → Result (Option String) → Run → Result Bool × Run
  end_round failed (err e) r = (err e, r)
  end_round failed (ok after) r = (
    ok (failed || has_failed after),
    on_machine (λ m. record m { memory = reset_local_context m.memory }) r,
  )

  -- What follows the test of a round.
  unfoldable pub after_test : Value → Bool → Result (Option String) → Run → Result Bool × Run
  unfolding end_round
  after_test local_vars failed (err e) r = (err e, r)
  after_test local_vars failed (ok f) r =
      let (after, r') = run_hook suite.after_each local_vars r in
      end_round (failed || has_failed f) after r'

  -- What follows the hook before a test, which does not depend on how the hook ended.
  unfoldable pub after_before :
      ℕ → SuiteItem Config → Value → Result (Option String) → Run → Result Bool × Run
  unfolding after_test
  after_before total test local_vars (err e) r = (err e, r)
  after_before total test local_vars (ok b) r =
      let (failure, r') = run_test total test local_vars r in
      after_test local_vars (has_failed b) failure r'

  -- One round of the loop over the tests: whether the test or one of its hooks failed.
  unfoldable pub run_round : ℕ → SuiteItem Config → Run → Result Bool × Run
  unfolding after_before
  run_round total test r =
      let (local_vars, r1) = new_dict r in
      let (before, r2) = run_hook suite.before_each local_vars r1 in
      after_before total test local_vars before r2

  -- The loop; a failure ends it where the test says so.
  unfoldable pub run_tests : ℕ → List (SuiteItem Config) → Run → Result (Unit {0}) × Run
  unfolding continue_tests
  run_tests total [] r = (ok tt, r)
  run_tests total (test ∷ tests) r =
      let (failed, r') = run_round total test r in
      let rest = run_tests total tests r' in continue_tests test failed r' rest

  -- The tests are executed unless the first hook failed.
  unfoldable pub run_tests_if_sound : List (SuiteItem Config) → Run → Result (Unit {0}) × Run
  run_tests_if_sound tests r = if r.any_error then (ok tt, r) else run_tests (length tests) tests r

  -- The first or the last hook, in fresh local variables.
  unfoldable pub run_outer_hook : Option (SuiteItem Config) → Run → Result (Option String) × Run
  run_outer_hook none r = (ok none, r)
  run_outer_hook (some hook) r = let (local_vars, r') = new_dict r in run_item hook local_vars r'

  -- The last part of a run, whatever the tests came to.
  unfoldable pub run_last : Result (Unit {0}) → Run → Result (Option String) × Run
  run_last (err e) r = (err e, r)
  run_last (ok _) r = run_outer_hook suite.after_all r

  unfoldable pub run_after_first :
      List (SuiteItem Config) → Result (Option String) → Run → Result (Option String) × Run
  unfolding run_last run_tests_if_sound
  run_after_first tests (err e) r = (err e, r)
  run_after_first tests (ok _) r = let (ended, r') = run_tests_if_sound tests r in run_last ended r'

  -- The three parts of a run.
  unfoldable pub run_parts : List (SuiteItem Config) → Run → Result (Option String) × Run
  run_parts tests r =
      let (before, r') = run_outer_hook suite.before_all r in run_after_first tests before r'

abbrev pub suite_execution : Run → SuiteExecution
suite_execution r = record {
  status = if r.any_error then error else success;
  error_message = or_none r.first_error_message;
}

abbrev pub start_run : ℕ → World → Run
start_run total w = progress total (
    on_machine (publish suite_started) (record {
      world = w;
      execution_position = 0;
      executed_tests = 0;
      any_error = false;
      first_error_message = "";
    }))

-- The row and the event at the end of a run.
abbrev pub finish_run : Run → SuiteExecution × Run
finish_run r = (
  suite_execution r,
  on_machine (publish (suite_finished (or_none r.first_error_message) r.any_error)) r,
)

-- What a run comes to: its result, the events that were published, and the rows of its items that
-- stay in the database.
pub record Outcome : Type 0 where
  pub result : Result SuiteExecution
  pub events : List Event
  pub item_executions : List ItemExecution

-- An error that leaves `_execute` rolls the transaction back: no row stays, only the events.
unfoldable pub close_run : Result (Option String) × Run → Outcome
close_run (err e, r) = record {
  result = err e;
  events = r.world.machine.events;
  item_executions = [];
}
close_run (ok _, r) =
    let (row, r') = finish_run r in
    record {
      result = ok row;
      events = r'.world.machine.events;
      item_executions = r'.world.item_executions;
    }

abbrev new_world : Memory → World
new_world memory = record {
  machine = record { memory = memory; test_operations = []; suite_operations = []; events = [] };
  item_executions = [];
}

module _ {Config : Type 0} (convert : Config → Result CommandConfig)
    (execute_operation : String → CommandConfig → Value → Memory → Result ExecutionResult × Memory)
    (run_id : ℕ → String) (env : ExecutionContext) (execution : ℕ) (suite : SuiteInput Config)
    (s : Store) where
  abbrev suite_env : ExecutionContext
  suite_env =
      bind_execution_context
        (record no_execution {
          execution_id = some suite.execution_id;
          test_suite_id = some suite.test_suite_id;
          test_suite_execution_id = some execution;
        })
        env

  abbrev initial_memory : Memory
  initial_memory =
      create_run_context (run_id execution) suite.event suite.vars_init suite.invocation_id s

  unfoldable pub execute_resolved : Result (List (SuiteItem Config)) → Outcome
  unfolding close_run
  execute_resolved (err e) = record { result = err e; events = []; item_executions = [] }
  execute_resolved (ok tests) = close_run (
      run_parts convert execute_operation suite_env execution suite tests
        (start_run (length tests) (new_world initial_memory)))

  -- `_execute`, given the number of the suite's execution and its id.
  unfoldable pub execute_suite : Outcome
  unfolding execute_resolved
  execute_suite = execute_resolved (resolve_tests_to_execute suite.tests suite.target_suite_item_id)
