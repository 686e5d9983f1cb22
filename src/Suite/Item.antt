-- ===== src/Suite/Item.antt =====
-- The items of a suite: its tests and its hooks, and the execution of one item's commands
-- (app/elaborations/services/test_suites/suite_item_executor.py).
use quality_flow.Base.{String, Option, none, some, List, [], if◌then◌else◌, ◌==◌, Result, ok, err}
use quality_flow.Base.Text.{strip, lower, or_empty}
use quality_flow.Context.Store.{Value, array, alloc, ref}
use quality_flow.Context.Record.{Memory, kind_test}
use quality_flow.Context.Binding.{set_context_last}
use quality_flow.Command.Scope.{
  scope_test, scope_hook_before_all, scope_hook_before_each, scope_hook_after_each,
  scope_hook_after_all,
}
use quality_flow.Command.Policy.{CommandConfig}
use quality_flow.Command.Runtime.{ExecutionContext, no_execution, bind_execution_context}
use quality_flow.Command.Execute.{Operation, Machine, ExecutionResult, execute_operations}

pub data HookPhase : Type 0 where
  before_all before_each after_each after_all : HookPhase

abbrev pub phase_value : HookPhase → String
phase_value before_all = "before-all"
phase_value before_each = "before-each"
phase_value after_each = "after-each"
phase_value after_all = "after-all"

-- A source of an item: its code, and the dict that describes it.
pub record Source : Type 0 where
  pub source_code : String
  pub body : Value

-- An entity of the table of items, with its commands.
pub record SuiteItem (Config : Type 0) : Type 0 where
  pub id : String
  pub kind : String
  pub hook_phase : Option String
  pub description : String
  pub on_failure : Option String
  pub sources : List Source
  pub operations : List (Operation Config)

abbrev phase_scope : String → Option String
phase_scope hook_phase =
    if hook_phase == "before-all"
    then some scope_hook_before_all
    else if hook_phase == "before-each"
    then some scope_hook_before_each
    else if hook_phase == "after-each"
    then some scope_hook_after_each
    else if hook_phase == "after-all"
    then some scope_hook_after_all
    else none

-- `_resolve_suite_item_scope`
unfoldable pub resolve_suite_item_scope : {Config : Type 0} → SuiteItem Config → Option String
resolve_suite_item_scope item =
    if lower (strip item.kind) == kind_test
    then some scope_test
    else phase_scope (lower (strip (or_empty item.hook_phase)))

-- The results of the item's commands; after a success the item is the context's last one.
abbrev item_result :
    {Config : Type 0}
    → SuiteItem Config
    → Result ExecutionResult × Machine
    → Result (List Value) × Machine
item_result item (ok r, m) =
    (ok r.results, record m { memory = set_context_last item.id r.payload m.memory })
item_result item (err e, m) = (err e, m)

module _ {Config : Type 0} (convert : Config → Result CommandConfig)
    (execute_operation : String
      → CommandConfig
      → Value
      → Memory
      → Result ExecutionResult × Memory) where
  -- `execute_suite_item`; the data that the first command works on is an empty list.
  unfoldable pub execute_suite_item :
      ExecutionContext → SuiteItem Config → Machine → Result (List Value) × Machine
  execute_suite_item env item m =
      let (empty, store) = alloc (array []) m.memory.store in
      item_result item (
        execute_operations convert execute_operation
          (bind_execution_context (record no_execution { suite_item_id = some item.id }) env)
          item.operations (ref empty) (resolve_suite_item_scope item)
          (record m { memory = record (m.memory) { store = store } }))
