-- ===== src/Constants/Suite.antt =====
-- The definitions of a suite: `validate_suite_constant_graph`, when it is saved, and
-- `rebuild_suite_constant_definitions`, which writes them to their table.
pub mod Rows
use quality_flow.Base.{
  ℕ, suc, String, Option, none, some, List, [], ◌∷◌, ◌++◌, if◌then◌else◌, ◌==ℕ◌, ◌==◌, ◌<>◌, Bool,
  true, not, Result, ok, err, bind,
}
use quality_flow.Base.Int.{ℤ, pos, negsuc}
use quality_flow.Base.Dict.{Dict, lookup, insert}
use quality_flow.Base.Text.{strip, or_empty, is_empty, decimal, or_else}
use quality_flow.Context.Store.{Value}
use quality_flow.Command.Execute.{Operation}
use quality_flow.Suite.Item.{SuiteItem}
use quality_flow.Suite.Sources.Graph.{SuiteDto, hooks_from, validate_suite_sources_graph}
use quality_flow.Constants.Tables.{
  suite_section_test, suite_section_before_all, suite_section_before_each, suite_section_after_each,
  suite_section_after_all, owner_suite,
}
use quality_flow.Constants.Config.{ConstantConfig}
use quality_flow.Constants.Plan.{
  RawCommand, order_or, PlannedDefinition, Definitions, Plan, plan_definitions_for_commands,
}

-- `command.order`, as the id of a command; 0 is none
abbrev order_text : ℤ → String
order_text (pos n) = if n ==ℕ 0 then "" else decimal n
order_text (negsuc n) = "-" <> decimal (suc n)

-- A row of the table of definitions.
pub record DefinitionEntity : Type 0 where
  pub definition : PlannedDefinition
  pub owner_type : String
  pub suite_id : Option String
  pub suite_item_id : Option String
  pub mock_server_api_id : Option String
  pub mock_server_queue_id : Option String

-- `_definition_entity` of a suite
abbrev pub suite_entity : String → String → PlannedDefinition → DefinitionEntity
suite_entity suite_id item_id d = record {
  definition = d;
  owner_type = owner_suite;
  suite_id = some suite_id;
  suite_item_id = some item_id;
  mock_server_api_id = none;
  mock_server_queue_id = none;
}

abbrev pub suite_entities : String → String → List PlannedDefinition → List DefinitionEntity
suite_entities suite_id item_id [] = []
suite_entities suite_id item_id (d ∷ ds) =
    suite_entity suite_id item_id d ∷ suite_entities suite_id item_id ds

-- The items of the table are told apart by whether they have a phase: the hooks by phase, of which
-- the last one of a phase counts, and the tests.
abbrev pub has_phase : {Config : Type 0} → SuiteItem Config → String
has_phase item = strip (or_empty item.hook_phase)

unfoldable pub stored_hooks :
    {Config : Type 0} → List (SuiteItem Config) → Dict (SuiteItem Config) → Dict (SuiteItem Config)
stored_hooks [] hooks = hooks
stored_hooks (item ∷ items) hooks =
    let with_item = stored_hooks items (insert (has_phase item) item hooks) in
    let without = stored_hooks items hooks in
    if is_empty (has_phase item) then without else with_item

unfoldable pub stored_tests : {Config : Type 0} → List (SuiteItem Config) → List (SuiteItem Config)
stored_tests [] = []
stored_tests (item ∷ items) =
    let rest = stored_tests items in if is_empty (has_phase item) then item ∷ rest else rest

-- `_commands_for_item`
abbrev pub commands_for_item : {Raw : Type 0} → List (Operation Raw) → ℕ → List (RawCommand Raw)
commands_for_item [] index = []
commands_for_item (op ∷ ops) index =
    record {
      id = some op.id;
      order = some (order_or (some op.order) index);
      cfg = op.configuration;
    }
    ∷ commands_for_item ops (suc index)

-- Whether a row is not of a suite.
abbrev other_suite : String → DefinitionEntity → Option String → Bool
other_suite suite_id e none = true
other_suite suite_id e (some id) = not (id == suite_id)

-- `delete_by_suite_id`
unfoldable pub delete_by_suite_id : String → List DefinitionEntity → List DefinitionEntity
delete_by_suite_id suite_id [] = []
delete_by_suite_id suite_id (e ∷ es) =
    let rest = delete_by_suite_id suite_id es in
    if other_suite suite_id e e.suite_id then e ∷ rest else rest

module _ {Raw : Type 0} (convert : Raw → Result ConstantConfig) (new_id : ℕ → String)
    (source_type : Value → String) where
  -- `_suite_item_commands`: a command's id is its order. A configuration has no `commandId`: the data
  -- classes drop it.
  abbrev pub suite_item_commands : List (Operation Raw) → ℕ → List (RawCommand Raw)
  suite_item_commands [] index = []
  suite_item_commands (op ∷ ops) index =
      record {
        id = some (or_else (order_text op.order) (new_id index));
        order = some (order_or (some op.order) index);
        cfg = op.configuration;
      }
      ∷ suite_item_commands ops (suc index)

  -- The definitions that a hook leaves, if there is one, and else those before it.
  unfoldable pub plan_hook : Option (SuiteItem Raw) → String → Definitions → Result Definitions
  plan_hook none section initial = ok initial
  plan_hook (some item) section initial =
      bind
        (plan_definitions_for_commands convert new_id (suite_item_commands item.operations 1)
          section initial)
        (λ plan. ok plan.1)

  -- The loop over the tests: each starts from the same definitions.
  unfoldable pub plan_tests : List (SuiteItem Raw) → Definitions → Result (Unit {0})
  plan_tests [] initial = ok tt
  plan_tests (test ∷ tests) initial =
      let rest = plan_tests tests initial in
      bind (plan_hook (some test) suite_section_test initial) (λ _. rest)

  -- The part of `validate_suite_constant_graph` after the check of the sources.
  unfoldable pub validate_sections : Dict (SuiteItem Raw) → List (SuiteItem Raw) → Result (Unit {0})
  validate_sections hooks tests =
      bind (plan_hook (lookup "before-all" hooks) suite_section_before_all []) (λ all.
        bind (plan_hook (lookup "before-each" hooks) suite_section_before_each all) (λ each.
          bind (plan_tests tests each) (λ _.
            bind (plan_hook (lookup "after-each" hooks) suite_section_after_each each) (λ _.
              bind (plan_hook (lookup "after-all" hooks) suite_section_after_all all)
                (λ _. ok tt)))))

  -- `validate_suite_constant_graph`
  unfoldable pub validate_suite_constant_graph : SuiteDto Raw → Result (Unit {0})
  validate_suite_constant_graph dto =
      bind (validate_suite_sources_graph convert source_type dto)
        (λ _. validate_sections (hooks_from dto.hooks []) dto.tests)

  -- The rows of a hook's definitions, if there is one, and the definitions that it leaves.
  unfoldable pub rebuild_hook :
      String
      → Option (SuiteItem Raw)
      → String
      → Definitions
      → Result (List DefinitionEntity × Definitions)
  rebuild_hook suite_id none section initial = ok ([], initial)
  rebuild_hook suite_id (some item) section initial =
      bind
        (plan_definitions_for_commands convert new_id (commands_for_item item.operations 1) section
          initial)
        (λ plan. ok (suite_entities suite_id item.id plan.0, plan.1))

  unfoldable pub rebuild_tests :
      String → List (SuiteItem Raw) → Definitions → Result (List DefinitionEntity)
  rebuild_tests suite_id [] initial = ok []
  rebuild_tests suite_id (test ∷ tests) initial =
      let rest = rebuild_tests suite_id tests initial in
      bind (rebuild_hook suite_id (some test) suite_section_test initial)
        (λ r. bind rest (λ rows. ok (r.0 ++ rows)))

  unfoldable pub rebuild_sections :
      String → Dict (SuiteItem Raw) → List (SuiteItem Raw) → Result (List DefinitionEntity)
  rebuild_sections suite_id hooks tests =
      bind (rebuild_hook suite_id (lookup "before-all" hooks) suite_section_before_all []) (λ all.
        bind (rebuild_hook suite_id (lookup "before-each" hooks) suite_section_before_each all.1)
          (λ each. bind (rebuild_tests suite_id tests each.1) (λ rows.
            bind (rebuild_hook suite_id (lookup "after-each" hooks) suite_section_after_each each.1)
              (λ after.
                bind
                  (rebuild_hook suite_id (lookup "after-all" hooks) suite_section_after_all all.1)
                  (λ last. ok (all.0 ++ (each.0 ++ (rows ++ (after.0 ++ last.0)))))))))

  -- `rebuild_suite_constant_definitions` on the table of definitions; an error rolls the table back.
  unfoldable pub rebuild_suite_constant_definitions :
      String → List (SuiteItem Raw) → List DefinitionEntity → Result (List DefinitionEntity)
  rebuild_suite_constant_definitions suite_id items table =
      bind (rebuild_sections suite_id (stored_hooks items []) (stored_tests items))
        (λ rows. ok (delete_by_suite_id suite_id table ++ rows))
