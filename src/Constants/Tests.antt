-- ===== src/Constants/Tests.antt =====
-- The theorems on constants at a suite whose hook before all makes a constant that a test reads.
use quality_flow.Base.{
  ℕ, refl, String, Option, none, some, List, [], ◌∷◌, Result, ok, text_dec, ◌≡◌, ◌↔◌, All, ◌++◌,
}
use quality_flow.Base.Int.{pos}
use quality_flow.Base.Dict.{Dict, lookup, insert}
use quality_flow.Base.Text.{text_ltb, strip, lstrip, rstrip}
use quality_flow.Context.Store.{Value}
use quality_flow.Command.Execute.{Operation}
use quality_flow.Suite.Item.{SuiteItem}
use quality_flow.Suite.Sources.Graph.{
  hooks_from, ItemFits, validate_suite_sources_graph, validate_suite_sources_graph_iff,
}
use quality_flow.Constants.Config.{
  ConstantConfig, init_constant, other_command, definition_refs, refs_of_class,
}
use quality_flow.Constants.Plan.{
  Definitions, PlannedDefinition, validate_ref_visibility, active_definitions, validate_form_body,
  plan_definitions_for_commands, plan_commands, plan_command, plan_class, sort_commands,
  insert_sorted, ensure_command_id, validate_refs, validate_ref, validate_visible_ref,
  planned_declarations, validate_declarations, check_declarations, validate_duplicate_name,
  carry_over_visible_map,
}
use quality_flow.Constants.Plan.Checks.{FormAllowed, RefAllowed, validate_ref_visibility_iff}
use quality_flow.Constants.Plan.Invariant.{empty-IsNamed}
use quality_flow.Constants.Plan.Section.{IsAccepted, plan_definitions-IsAccepted}
use quality_flow.Constants.Suite.{
  DefinitionEntity, rebuild_sections, rebuild_suite_constant_definitions, stored_hooks,
  stored_tests, rebuild_hook, rebuild_tests, delete_by_suite_id,
}
use quality_flow.Constants.Suite.Rows.{IsSuiteRow, foreign_to, rebuild_suite-rows}
use quality_flow.Constants.Mock.{
  MockApi, rebuild_mock_constant_definitions, rebuild_apis, rebuild_queues, api_rows, queue_rows,
  section_rows, delete_by_mock_server_api_id, delete_by_mock_server_queue_id,
}
use quality_flow.Constants.Mock.Rows.{IsMockRow, foreign_rows, rebuild_mock-rows}

abbrev init : ConstantConfig
init = record {
  command_code = "setVariable";
  config_class = init_constant "d1" (some "x") (some "global") (some "json");
  input_ref = none;
  actual_ref = none;
  expected_ref = none;
  result_constant = none;
}

abbrev compare : ConstantConfig
compare = record {
  command_code = "jsonEquals";
  config_class = other_command;
  input_ref = none;
  actual_ref = some (record { kind = "runtimeValue"; definition_id = "d1"; source_code = none });
  expected_ref = none;
  result_constant = none;
}

abbrev constant : PlannedDefinition
constant = record {
  definition_id = "d1";
  command_id = "c1";
  command_order = pos 1;
  section_type = "beforeAll";
  name = "x";
  context_scope = "global";
  value_type = "json";
  deleted_at_order = none;
}

abbrev definitions : Definitions
definitions = ("d1", constant) ∷ []

abbrev convert : ConstantConfig → Result ConstantConfig
convert cfg = ok cfg

abbrev new_id : ℕ → String
new_id n = "new"

abbrev source_type : Value → String
source_type v = ""

abbrev operation : ConstantConfig → Operation ConstantConfig
operation cfg = record { id = "c1"; configuration = cfg; description = ""; order = pos 1 }

abbrev item : String → String → Option String → ConstantConfig → SuiteItem ConstantConfig
item id kind hook_phase cfg = record {
  id = id;
  kind = kind;
  hook_phase = hook_phase;
  description = "";
  on_failure = none;
  sources = [];
  operations = operation cfg ∷ [];
}

abbrev hook : SuiteItem ConstantConfig
hook = item "h" "hook" (some "before-all") init

abbrev test : SuiteItem ConstantConfig
test = item "t" "test" none compare

abbrev hooks : Dict (SuiteItem ConstantConfig)
hooks = ("before-all", hook) ∷ []

validate_ref_visibility_iff_example :
    (validate_ref_visibility compare "test" (pos 2) definitions ≡ ok tt) ↔ (
      All (RefAllowed "jsonEquals" "test" (pos 2) definitions) (definition_refs compare)
      × FormAllowed "test" (pos 2) definitions other_command)
validate_ref_visibility_iff_example =
    validate_ref_visibility_iff compare "test" (pos 2) definitions (tt, tt)

plan_definitions-IsAccepted_example :
    IsAccepted convert new_id "beforeAll" (constant ∷ [], definitions)
unfolding plan_definitions_for_commands plan_commands plan_command plan_class sort_commands
    insert_sorted text_ltb ensure_command_id validate_refs planned_declarations
    validate_declarations check_declarations validate_duplicate_name carry_over_visible_map
    definition_refs refs_of_class validate_ref_visibility validate_form_body active_definitions
    strip lstrip rstrip lookup insert text_dec
plan_definitions-IsAccepted_example =
    plan_definitions-IsAccepted convert new_id
      (record { id = some "c1"; order = some (pos 1); cfg = init } ∷ []) "beforeAll" []
      (constant ∷ [], definitions) (refl, tt) empty-IsNamed refl

validate_suite_sources_graph_iff_example :
    (validate_suite_sources_graph convert source_type
        (record { hooks = hook ∷ []; tests = test ∷ [] })
      ≡ ok tt)
    ↔ All
        (ItemFits convert source_type
          (lookup "before-all" (hooks_from (hook ∷ []) []))
          (lookup "before-each" (hooks_from (hook ∷ []) [])))
        (hook ∷ test ∷ [])
validate_suite_sources_graph_iff_example =
    validate_suite_sources_graph_iff convert source_type
      (record { hooks = hook ∷ []; tests = test ∷ [] })

-- The row of the constant, as written for the suite `s`.
abbrev row : DefinitionEntity
row = record {
  definition = constant;
  owner_type = "suite";
  suite_id = some "s";
  suite_item_id = some "h";
  mock_server_api_id = none;
  mock_server_queue_id = none;
}

-- A row that an API owns.
abbrev api_row : DefinitionEntity
api_row = record {
  definition = constant;
  owner_type = "mock_api_pre";
  suite_id = none;
  suite_item_id = none;
  mock_server_api_id = some "a";
  mock_server_queue_id = none;
}

rebuild_suite-rows_example :
    ((rows : List DefinitionEntity) × ((api_row ∷ row ∷ [])
        ≡ foreign_to "s" (row ∷ api_row ∷ []) ++ rows)
      × All (IsSuiteRow "s") rows)
    × (rebuild_suite_constant_definitions convert new_id source_type "s"
          (test ∷ hook ∷ [])
          (api_row ∷ row ∷ [])
        ≡ ok (api_row ∷ row ∷ []))
unfolding rebuild_suite_constant_definitions stored_hooks stored_tests rebuild_sections rebuild_hook
    rebuild_tests delete_by_suite_id plan_definitions_for_commands plan_commands plan_command
    plan_class sort_commands insert_sorted text_ltb ensure_command_id validate_refs validate_ref
    validate_visible_ref planned_declarations validate_declarations check_declarations
    validate_duplicate_name carry_over_visible_map definition_refs refs_of_class
    validate_ref_visibility validate_form_body active_definitions strip lstrip rstrip lookup insert
    text_dec
rebuild_suite-rows_example =
    rebuild_suite-rows convert new_id source_type "s" (test ∷ hook ∷ []) (row ∷ api_row ∷ [])
      (api_row ∷ row ∷ []) refl

abbrev result_command : ConstantConfig
result_command = record init {
  config_class = init_constant "d1" (some "x") (some "runEnvelope") (some "json");
}

abbrev api : MockApi ConstantConfig
api = record {
  id = "a";
  pre_response_commands =
      none
      ∷ some (record { id = none; order = none; cfg = some result_command; whole = compare })
      ∷ [];
  commands = [];
}

abbrev new_row : DefinitionEntity
new_row = record api_row {
  definition = record constant {
    command_id = "new";
    command_order = pos 2;
    section_type = "mock.preResponse";
    context_scope = "runEnvelope";
  };
}

rebuild_mock-rows_example :
    (rows : List DefinitionEntity) × ((row ∷ new_row ∷ [])
      ≡ foreign_rows ("a" ∷ []) ("q" ∷ []) (row ∷ api_row ∷ []) ++ rows)
    × All (IsMockRow ("a" ∷ []) ("q" ∷ [])) rows
unfolding rebuild_mock_constant_definitions rebuild_apis rebuild_queues api_rows queue_rows
    section_rows delete_by_mock_server_api_id delete_by_mock_server_queue_id
    plan_definitions_for_commands plan_commands plan_command plan_class sort_commands insert_sorted
    text_ltb ensure_command_id validate_refs planned_declarations validate_declarations
    check_declarations validate_duplicate_name carry_over_visible_map definition_refs refs_of_class
    validate_ref_visibility validate_form_body active_definitions strip lstrip rstrip lookup insert
    text_dec
rebuild_mock-rows_example =
    rebuild_mock-rows convert new_id compare (api ∷ []) (record { id = "q"; commands = [] } ∷ [])
      (row ∷ api_row ∷ []) (row ∷ new_row ∷ []) refl
