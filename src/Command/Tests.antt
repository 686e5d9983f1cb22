-- ===== src/Command/Tests.antt =====
-- The theorems on commands at concrete ones.
use quality_flow.Base.{
  ◌≡◌, ◌↔◌, refl, Bool, true, false, String, none, some, List, [], ◌∷◌, ◌++◌, Result, ok, err,
  text_dec, ◌<>◌,
}
use quality_flow.Base.Int.{pos}
use quality_flow.Base.Dict.{lookup}
use quality_flow.Base.Text.{strip}
use quality_flow.Context.Store.{Value, null}
use quality_flow.Context.Record.{Memory, create_run_context}
use quality_flow.Command.Contract.{OperationContract, get_operation_contract}
use quality_flow.Command.Policy.{
  CommandConfig, validate_operation_policy, validate_contract, validate_scope_rules,
  validate_target_roots, collect_target_paths,
}
use quality_flow.Context.Paths.{extract_context_root, path_tokens}
use quality_flow.Command.Policy.Allowed.{IsAllowed, validate_operation_policy_iff}
use quality_flow.Command.Runtime.{ExecutionContext, no_execution}
use quality_flow.Command.Execute.{
  Machine, Operation, ExecutionResult, OperationExecution, run_operations,
}
use quality_flow.Command.Execute.Records.{Recorded, run_operations-Recorded}

abbrev set_variable : CommandConfig
set_variable = record {
  command_code = "setVariable";
  target = some "$.local.x";
  context = none;
  name = none;
  result_target = none;
  result_constant = none;
  other_fields = [];
}

abbrev set_variable_contract : OperationContract
set_variable_contract = record {
  family = "context";
  name = "setVariable";
  supported_scopes =
      "test" ∷ "hook.beforeAll" ∷ "hook.beforeEach" ∷ "hook.afterEach" ∷ "hook.afterAll"
      ∷ "mock.preResponse" ∷ [];
  reads_from = "runEnvelope" ∷ "global" ∷ "local" ∷ [];
  writes_to = "runEnvelope" ∷ "global" ∷ "local" ∷ "result" ∷ [];
  produces_result = true;
  side_effects = false;
  async_allowed = false;
  failure_mode = "fail-fast";
}

set_variable_registered : get_operation_contract " setVariable " ≡ some set_variable_contract
unfolding get_operation_contract lookup strip text_dec
set_variable_registered = refl

set_variable_accepted :
    validate_operation_policy set_variable (some "test") ≡ ok set_variable_contract
unfolding validate_operation_policy validate_contract validate_scope_rules validate_target_roots
    collect_target_paths extract_context_root path_tokens get_operation_contract lookup strip
    text_dec ◌<>◌
set_variable_accepted = refl

validate_operation_policy_iff_example :
    (validate_operation_policy set_variable (some "test") ≡ ok set_variable_contract)
    ↔ IsAllowed set_variable (some "test") set_variable_contract
validate_operation_policy_iff_example =
    validate_operation_policy_iff set_variable (some "test") set_variable_contract

-- Configurations are Booleans here, of which one cannot be converted.
abbrev convert : Bool → Result CommandConfig
convert true = ok set_variable
convert false = err "invalid"

abbrev execute_operation : String → CommandConfig → Value → Memory → Result ExecutionResult × Memory
execute_operation id cfg payload m = (ok (record { payload = payload; results = payload ∷ [] }), m)

abbrev env : ExecutionContext
env = record no_execution { test_suite_execution_id = some 1; suite_item_execution_id = some 4 }

abbrev two_operations : List (Operation Bool)
two_operations =
    record { id = "a"; configuration = true; description = ""; order = pos 1 }
    ∷ record { id = "b"; configuration = false; description = ""; order = pos 2 }
    ∷ []

abbrev machine : Machine
machine = record {
  memory = create_run_context "run" null null none (record { next = 0; cell = λ _. none });
  test_operations = [];
  suite_operations = [];
  events = [];
}

abbrev no_result : ExecutionResult
no_result = record { payload = null; results = [] }

run_operations-Recorded_example :
    let (r, m') =
      run_operations convert execute_operation env (some "test") two_operations no_result machine in
    (new : List OperationExecution) × Recorded convert execute_operation env
      (some "test")
      1
      4
      two_operations
      r
      new
    × (m'.suite_operations ≡ [] ++ new)
run_operations-Recorded_example =
    run_operations-Recorded convert execute_operation env (some "test") 1 4 refl refl two_operations
      no_result machine
