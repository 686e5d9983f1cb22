-- ===== src/Command/Execute.antt =====
-- The loop that executes commands and records each execution:
-- app/elaborations/services/operations/command_executor_composite.py.
pub mod Records
use quality_flow.Base.{
  ℕ, Bool, String, Option, none, some, List, [], ◌∷◌, ◌++◌, length, get_elem?, set, if◌then◌else◌,
  Result, ok, err,
}
use quality_flow.Base.Int.{ℤ}
use quality_flow.Base.Text.{or_none, or_empty, strip, is_empty}
use quality_flow.Context.Store.{Value}
use quality_flow.Context.Record.{Memory}
use quality_flow.Command.Scope.{resolve_execution_scope}
use quality_flow.Command.Policy.{CommandConfig, validate_operation_policy}
use quality_flow.Command.Runtime.{ExecutionContext}

pub data Status : Type 0 where
  running success error : Status

-- A row of a table of command executions. The time stamps are left out.
pub record OperationExecution : Type 0 where
  -- the rows of the executions that the command belongs to
  pub suite_execution : ℕ
  pub item_execution : ℕ
  pub item_id : Option String
  pub operation_id : Option String
  pub operation_description : String
  pub operation_order : ℤ
  pub status : Status
  pub error_message : Option String

-- The payloads of the events of a run, without time stamps and the ids that repeat.
pub data Event : Type 0 where
  suite_started : Event
  suite_progress : ℕ → ℕ → Event
  -- whether the item is a hook, its execution's row, its id and its position
  item_started : Bool → ℕ → String → ℕ → Event
  -- `none` for the status `success`, else the error
  item_finished : Bool → ℕ → String → Option String → Event
  command_finished : String → Option String → Event
  suite_finished : Option String → Bool → Event

-- What the commands of an item work on: the run context, the two tables of command executions and
-- the events published so far.
pub record Machine : Type 0 where
  pub memory : Memory
  pub test_operations : List OperationExecution
  pub suite_operations : List OperationExecution
  pub events : List Event

-- `ExecutionResultDto`
pub record ExecutionResult : Type 0 where
  pub payload : Value
  pub results : List Value

-- `ExecutionResultDto.extend`
abbrev pub extend : ExecutionResult → ExecutionResult → ExecutionResult
extend r new = record { payload = new.payload; results = r.results ++ new.results }

-- A command as it is stored; `configuration` is its JSON.
pub record Operation (Config : Type 0) : Type 0 where
  pub id : String
  pub configuration : Config
  pub description : String
  pub order : ℤ

-- The row of a command that has begun; `owner` is the id of the test or the item.
abbrev operation_row :
    {Config : Type 0} → Option String → Operation Config → ℕ → ℕ → OperationExecution
operation_row owner op suite item = record {
  suite_execution = suite;
  item_execution = item;
  item_id = or_none (strip (or_empty owner));
  operation_id = or_none op.id;
  operation_description = op.description;
  operation_order = op.order;
  status = running;
  error_message = none;
}

-- A row is inserted where both of its executions are known. Its id is its number.
abbrev insert_row :
    {Config : Type 0}
    → Option String
    → Operation Config
    → Option ℕ
    → Option ℕ
    → List OperationExecution
    → Option ℕ × List OperationExecution
insert_row owner op (some suite) (some item) rows =
    (some (length rows), rows ++ (operation_row owner op suite item ∷ []))
insert_row owner op (some suite) none rows = (none, rows)
insert_row owner op none item rows = (none, rows)

abbrev finish_row :
    Status
    → Option String
    → Option OperationExecution
    → List OperationExecution
    → ℕ
    → List OperationExecution
finish_row status message none rows i = rows
finish_row status message (some row) rows i =
    set rows i (record row { status = status; error_message = message })

-- `update` of a row that was inserted.
unfoldable pub update_row :
    Status → Option String → Option ℕ → List OperationExecution → List OperationExecution
update_row status message none rows = rows
update_row status message (some i) rows = finish_row status message (get_elem? rows i) rows i

abbrev pub status_of : Option String → Status
status_of none = success
status_of (some _) = error

-- An event is published where the execution has an id.
abbrev published : Option String → Event → List Event → List Event
published none event events = events
published (some id) event events = if is_empty id then events else events ++ (event ∷ [])

-- The end of a command: both rows get their status, and the event is published.
unfoldable pub finish_operation :
    ExecutionContext → String → Option ℕ → Option ℕ → Option String → Machine → Machine
unfolding update_row
finish_operation env op_id test_row suite_row failure m = record m {
  test_operations = update_row (status_of failure) failure test_row m.test_operations;
  suite_operations = update_row (status_of failure) failure suite_row m.suite_operations;
  events = published env.execution_id (command_finished op_id failure) m.events;
}

-- Both ends of the `try`.
unfoldable pub conclude_operation :
    ExecutionContext
    → String
    → Option ℕ
    → Option ℕ
    → ExecutionResult
    → Result ExecutionResult
    → Machine
    → Result ExecutionResult × Machine
unfolding finish_operation
conclude_operation env op_id test_row suite_row result (ok new) m =
    (ok (extend result new), finish_operation env op_id test_row suite_row none m)
conclude_operation env op_id test_row suite_row result (err e) m =
    (err e, finish_operation env op_id test_row suite_row (some e) m)

-- What the source takes from elsewhere: the conversion of a stored configuration, by the data
-- classes of its library, and the executors of the single commands.
module _ {Config : Type 0} (convert : Config → Result CommandConfig)
    (execute_operation : String
      → CommandConfig
      → Value
      → Memory
      → Result ExecutionResult × Memory) where
  -- The policy is checked first; a command that it refuses is not executed.
  unfoldable pub guarded_operation :
      String → CommandConfig → Option String → Value → Memory → Result ExecutionResult × Memory
  guarded_operation op_id cfg scope payload memory = elim (validate_operation_policy cfg scope) [
    | err e ↦ (err e, memory)
    | ok _ ↦ execute_operation op_id cfg payload memory
  ]

  -- The `try` of a command whose configuration is known, with its rows inserted.
  unfoldable pub attempt_operation :
      ExecutionContext
      → Option String
      → String
      → Option ℕ
      → Option ℕ
      → CommandConfig
      → ExecutionResult
      → Machine
      → Result ExecutionResult × Machine
  unfolding guarded_operation conclude_operation
  attempt_operation env scope op_id test_row suite_row cfg result m =
      let (r, memory) = guarded_operation op_id cfg scope result.payload m.memory in
      conclude_operation env op_id test_row suite_row result r (record m { memory = memory })

  -- What follows the conversion of the configuration, which stands outside the `try`: where that
  -- fails, the rows stay as they were inserted.
  unfoldable pub run_converted :
      ExecutionContext
      → Option String
      → String
      → Option ℕ
      → Option ℕ
      → ExecutionResult
      → Machine
      → Result CommandConfig
      → Result ExecutionResult × Machine
  unfolding attempt_operation
  run_converted env scope op_id test_row suite_row result m (err e) = (err e, m)
  run_converted env scope op_id test_row suite_row result m (ok cfg) =
      attempt_operation env scope op_id test_row suite_row cfg result m

  -- One round of the loop.
  unfoldable pub run_operation :
      ExecutionContext
      → Option String
      → Operation Config
      → ExecutionResult
      → Machine
      → Result ExecutionResult × Machine
  unfolding run_converted
  run_operation env scope op result m =
      let (test_row, test_rows) =
        insert_row env.suite_test_id op env.suite_execution_id env.suite_test_execution_id
          m.test_operations in
      let (suite_row, suite_rows) =
        insert_row env.suite_item_id op env.test_suite_execution_id env.suite_item_execution_id
          m.suite_operations in
      run_converted env scope op.id test_row suite_row result
        (record m { test_operations = test_rows; suite_operations = suite_rows })
        (convert op.configuration)

  -- The loop; the first failure ends it.
  unfoldable pub run_operations :
      ExecutionContext
      → Option String
      → List (Operation Config)
      → ExecutionResult
      → Machine
      → Result ExecutionResult × Machine
  run_operations env scope [] result m = (ok result, m)
  run_operations env scope (op ∷ ops) result m =
      let (r, m') = run_operation env scope op result m in
      elim r [ ok result' ↦ run_operations env scope ops result' m' | err e ↦ (err e, m') ]

  -- `execute_operations`
  unfoldable pub execute_operations :
      ExecutionContext
      → List (Operation Config)
      → Value
      → Option String
      → Machine
      → Result ExecutionResult × Machine
  unfolding run_operations
  execute_operations env ops payload execution_scope m =
      run_operations env (resolve_execution_scope (some m.memory.context) execution_scope) ops
        (record { payload = payload; results = [] }) m
