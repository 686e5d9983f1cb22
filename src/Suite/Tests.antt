-- ===== src/Suite/Tests.antt =====
-- The theorems on suites at a suite of a hook and two tests, the first of which fails.
use quality_flow.Base.{
  ℕ, refl, Bool, true, false, String, Option, none, some, List, [], ◌∷◌, Result, ok, err, text_dec,
  ◌≡◌,
}
use quality_flow.Base.Int.{pos}
use quality_flow.Context.Store.{Value, null, Store}
use quality_flow.Context.Record.{Memory}
use quality_flow.Command.Policy.{CommandConfig}
use quality_flow.Command.Runtime.{no_execution}
use quality_flow.Command.Execute.{ExecutionResult}
use quality_flow.Suite.Item.{SuiteItem}
use quality_flow.Suite.Run.{SuiteInput, execute_suite, resolve_tests_to_execute}
use quality_flow.Suite.Sources.Visible.{build_visible_sources-lookup, source_named, seen_sources}
use quality_flow.Base.Dict.{lookup, insert}
use quality_flow.Suite.Sources.{build_visible_sources, section_type_for_item, add_sources}
use quality_flow.Base.Text.{strip, lower}
use quality_flow.Suite.Run.Report.{Reports, execute_suite-Reports}

abbrev sleep : CommandConfig
sleep = record {
  command_code = "sleep";
  target = none;
  context = none;
  name = none;
  result_target = none;
  result_constant = none;
  other_fields = [];
}

abbrev convert : Bool → Result CommandConfig
convert true = ok sleep
convert false = err "invalid"

abbrev execute_operation : String → CommandConfig → Value → Memory → Result ExecutionResult × Memory
execute_operation id cfg payload m = (ok (record { payload = payload; results = payload ∷ [] }), m)

abbrev item : String → String → Option String → Bool → SuiteItem Bool
item id kind hook_phase good = record {
  id = id;
  kind = kind;
  hook_phase = hook_phase;
  description = "";
  on_failure = some "continue";
  sources = [];
  operations = record { id = "op"; configuration = good; description = ""; order = pos 1 } ∷ [];
}

abbrev two_tests : List (SuiteItem Bool)
two_tests = item "t1" "test" none false ∷ item "t2" "test" none true ∷ []

abbrev suite : SuiteInput Bool
suite = record {
  execution_id = "e";
  test_suite_id = "s";
  event = null;
  vars_init = null;
  invocation_id = none;
  target_suite_item_id = none;
  before_all = some (item "h" "hook" (some "before-all") true);
  before_each = none;
  after_each = none;
  after_all = none;
  tests = two_tests;
}

abbrev run_id : ℕ → String
run_id n = "run"

abbrev empty_store : Store
empty_store = record { next = 0; cell = λ _. none }

execute_suite-Reports_example :
    Reports suite two_tests
      (execute_suite convert execute_operation run_id no_execution 1 suite empty_store)
unfolding resolve_tests_to_execute
execute_suite-Reports_example =
    execute_suite-Reports convert execute_operation run_id no_execution 1 suite empty_store
      two_tests refl

abbrev hook_with_source : SuiteItem Bool
hook_with_source = record (item "h" "hook" (some "before-all") true) {
  sources = record { source_code = " rows "; body = null } ∷ [];
}

build_visible_sources-lookup_example :
    lookup "rows" (("rows", null) ∷ [])
    ≡ source_named "rows" (seen_sources (some hook_with_source) none (item "t1" "test" none true))
unfolding build_visible_sources section_type_for_item add_sources strip lower text_dec lookup insert
build_visible_sources-lookup_example =
    build_visible_sources-lookup (some hook_with_source) none (item "t1" "test" none true)
      (("rows", null) ∷ []) "rows" refl refl
