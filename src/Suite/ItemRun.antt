-- ===== src/Suite/ItemRun.antt =====
-- `_execute_item` of app/elaborations/services/test_suites/test_suite_executor_thread.py.
use quality_flow.Base.{
  ℕ, Bool, String, Option, none, some, List, [], ◌∷◌, ◌++◌, length, set, get_elem?, ◌==◌, Result,
  ok, err,
}
use quality_flow.Base.Text.{strip, or_empty, or_none}
use quality_flow.Context.Store.{Value}
use quality_flow.Context.Record.{Memory, kind_hook}
use quality_flow.Context.Binding.{enter_suite_item, exit_suite_item}
use quality_flow.Command.Policy.{CommandConfig}
use quality_flow.Command.Runtime.{ExecutionContext, no_execution, bind_execution_context}
use quality_flow.Command.Execute.{
  Status, running, status_of, Event, item_started, item_finished, Machine, ExecutionResult,
}
use quality_flow.Suite.Item.{SuiteItem, execute_suite_item}

-- A row of the table of item executions. Its id is its number.
pub record ItemExecution : Type 0 where
  pub test_suite_execution : ℕ
  pub suite_item_id : String
  pub item_kind : String
  pub hook_phase : Option String
  pub item_description : String
  pub position : ℕ
  pub status : Status
  pub error_message : Option String

-- What a run changes: the machine of its commands, and the table of its items' executions.
pub record World : Type 0 where
  pub machine : Machine
  pub item_executions : List ItemExecution

-- The row that `_create_item_execution` inserts.
unfoldable pub new_item_execution : {Config : Type 0} → ℕ → SuiteItem Config → ℕ → ItemExecution
new_item_execution execution item position = record {
  test_suite_execution = execution;
  suite_item_id = item.id;
  item_kind = item.kind;
  hook_phase = or_none (strip (or_empty item.hook_phase));
  item_description = item.description;
  position = position;
  status = running;
  error_message = none;
}

-- `update` of the status of a row.
abbrev pub finished : Option String → ItemExecution → ItemExecution
finished failure row = record row { status = status_of failure; error_message = failure }

abbrev finish_found :
    Option String → Option ItemExecution → List ItemExecution → ℕ → List ItemExecution
finish_found failure none rows i = rows
finish_found failure (some row) rows i = set rows i (finished failure row)

unfoldable pub finish_item_execution : Option String → ℕ → List ItemExecution → List ItemExecution
finish_item_execution failure i rows = finish_found failure (get_elem? rows i) rows i

abbrev pub publish : Event → Machine → Machine
publish event m = record m { events = m.events ++ (event ∷ []) }

abbrev pub failure_of {ℓ} : {A : Type ℓ} → Result A → Option String
failure_of (ok _) = none
failure_of (err e) = some e

abbrev is_hook : {Config : Type 0} → SuiteItem Config → Bool
is_hook item = item.kind == kind_hook

module _ {Config : Type 0} (convert : Config → Result CommandConfig)
    (execute_operation : String → CommandConfig → Value → Memory → Result ExecutionResult × Memory)
    (env : ExecutionContext) (execution : ℕ) where
  -- The item's commands between `enter` and `exit` of its context.
  unfoldable pub run_in_context :
      SuiteItem Config → ℕ → Value → Value → Machine → Option String × Machine
  run_in_context item row local_vars visible_sources m =
      let (r, m') =
        execute_suite_item convert execute_operation
          (bind_execution_context
            (record no_execution {
              suite_item_id = some item.id;
              suite_item_execution_id = some row;
            })
            env)
          item
          (record m {
            memory =
                enter_suite_item item.kind (or_none (strip (or_empty item.hook_phase)))
                  (some local_vars) (some visible_sources) m.memory;
          }) in
      (failure_of r, record m' { memory = exit_suite_item m.memory m'.memory })

  -- `_execute_item`, with the error of the item, if it failed.
  unfoldable pub execute_item : SuiteItem Config → ℕ → Value → Value → World → Option String × World
  unfolding finish_item_execution new_item_execution
  execute_item item position local_vars visible_sources w =
      let row = length w.item_executions in
      let rows = w.item_executions ++ (new_item_execution execution item position ∷ []) in
      let (failure, m) =
        run_in_context item row local_vars visible_sources
          (publish (item_started (is_hook item) row item.id position) w.machine) in
      (
        failure,
        record {
          machine = publish (item_finished (is_hook item) row item.id failure) m;
          item_executions = finish_item_execution failure row rows;
        },
      )
