-- ===== src/Constants/Mock.antt =====
-- The definitions of a mock server: `validate_mock_server_constant_graph`, when it is saved, and
-- `rebuild_mock_constant_definitions`, which writes them to their table.
pub mod Rows
use quality_flow.Base.{
  ℕ, suc, String, Option, none, some, List, [], ◌∷◌, ◌++◌, if◌then◌else◌, ◌==◌, Bool, false, Result,
  ok, bind,
}
use quality_flow.Base.Int.{ℤ}
use quality_flow.Command.Execute.{Operation}
use quality_flow.Constants.Tables.{
  mock_section_pre_response, mock_section_post_response, mock_section_queue, owner_mock_api_pre,
  owner_mock_api_post, owner_mock_queue,
}
use quality_flow.Constants.Config.{ConstantConfig}
use quality_flow.Constants.Plan.{
  RawCommand, order_or, ensure_command_id, PlannedDefinition, plan_definitions_for_commands,
}
use quality_flow.Constants.Suite.{DefinitionEntity, commands_for_item}

-- An entry of `pre_response_commands` that is a dict: its `cfg` or `configuration_json`, if one of
-- them is not empty, and the whole dict.
pub record PreCommand (Raw : Type 0) : Type 0 where
  pub id : Option String
  pub order : Option ℤ
  pub cfg : Option Raw
  pub whole : Raw

-- `none` stands for an entry that is no dict.
pub record MockApi (Raw : Type 0) : Type 0 where
  pub id : String
  pub pre_response_commands : List (Option (PreCommand Raw))
  pub commands : List (Operation Raw)

pub record MockQueue (Raw : Type 0) : Type 0 where
  pub id : String
  pub commands : List (Operation Raw)

-- `_definition_entity` of an API and of a queue
abbrev pub api_entity : String → String → PlannedDefinition → DefinitionEntity
api_entity owner_type api_id d = record {
  definition = d;
  owner_type = owner_type;
  suite_id = none;
  suite_item_id = none;
  mock_server_api_id = some api_id;
  mock_server_queue_id = none;
}

abbrev pub queue_entity : String → PlannedDefinition → DefinitionEntity
queue_entity queue_id d = record {
  definition = d;
  owner_type = owner_mock_queue;
  suite_id = none;
  suite_item_id = none;
  mock_server_api_id = none;
  mock_server_queue_id = some queue_id;
}

abbrev pub entities :
    (PlannedDefinition → DefinitionEntity) → List PlannedDefinition → List DefinitionEntity
entities entity [] = []
entities entity (d ∷ ds) = entity d ∷ entities entity ds

-- Whether an owner's column has a key.
abbrev pub is_owner : String → Option String → Bool
is_owner key none = false
is_owner key (some id) = id == key

unfoldable pub delete_by_mock_server_api_id : String → List DefinitionEntity → List DefinitionEntity
delete_by_mock_server_api_id api_id [] = []
delete_by_mock_server_api_id api_id (e ∷ es) =
    let rest = delete_by_mock_server_api_id api_id es in
    if is_owner api_id e.mock_server_api_id then rest else e ∷ rest

unfoldable pub delete_by_mock_server_queue_id :
    String → List DefinitionEntity → List DefinitionEntity
delete_by_mock_server_queue_id queue_id [] = []
delete_by_mock_server_queue_id queue_id (e ∷ es) =
    let rest = delete_by_mock_server_queue_id queue_id es in
    if is_owner queue_id e.mock_server_queue_id then rest else e ∷ rest

-- The conversion of a configuration, the ids that `uuid4` makes, and the configuration `{}`.
module _ {Raw : Type 0} (convert : Raw → Result ConstantConfig) (new_id : ℕ → String)
    (no_cfg : Raw) where
  abbrev cfg_or : Option Raw → Raw → Raw
  cfg_or none default_cfg = default_cfg
  cfg_or (some cfg) default_cfg = cfg

  -- The entries that are dicts, as the check reads them.
  abbrev pub checked_pre_commands : List (Option (PreCommand Raw)) → List (RawCommand Raw)
  checked_pre_commands [] = []
  checked_pre_commands (none ∷ entries) = checked_pre_commands entries
  checked_pre_commands (some c ∷ entries) =
      record { id = c.id; order = c.order; cfg = cfg_or c.cfg no_cfg }
      ∷ checked_pre_commands entries

  -- The commands of an entry that is saved get new ids.
  abbrev pub saved_commands : List (Operation Raw) → ℕ → List (RawCommand Raw)
  saved_commands [] index = []
  saved_commands (c ∷ cs) index =
      record {
        id = some (new_id index);
        order = some (order_or (some c.order) index);
        cfg = c.configuration;
      }
      ∷ saved_commands cs (suc index)

  unfoldable pub validate_apis : List (MockApi Raw) → Result (Unit {0})
  validate_apis [] = ok tt
  validate_apis (api ∷ apis) =
      let rest = validate_apis apis in
      bind
        (plan_definitions_for_commands convert new_id
          (checked_pre_commands api.pre_response_commands) mock_section_pre_response [])
        (λ _.
          bind
            (plan_definitions_for_commands convert new_id (saved_commands api.commands 1)
              mock_section_post_response [])
            (λ _. rest))

  unfoldable pub validate_queues : List (MockQueue Raw) → Result (Unit {0})
  validate_queues [] = ok tt
  validate_queues (queue ∷ queues) =
      let rest = validate_queues queues in
      bind
        (plan_definitions_for_commands convert new_id (saved_commands queue.commands 1)
          mock_section_queue [])
        (λ _. rest)

  -- `validate_mock_server_constant_graph`
  unfoldable pub validate_mock_server_constant_graph :
      List (MockApi Raw) → List (MockQueue Raw) → Result (Unit {0})
  validate_mock_server_constant_graph apis queues =
      bind (validate_apis apis) (λ _. validate_queues queues)

  -- `normalized_pre_commands`: an entry without a configuration is its own, and an entry that is no
  -- dict counts in the default orders.
  abbrev pub normalized_pre_commands : List (Option (PreCommand Raw)) → ℕ → List (RawCommand Raw)
  normalized_pre_commands [] index = []
  normalized_pre_commands (none ∷ entries) index = normalized_pre_commands entries (suc index)
  normalized_pre_commands (some c ∷ entries) index =
      record {
        id = some (ensure_command_id (new_id index) c.id);
        order = some (order_or c.order index);
        cfg = cfg_or c.cfg c.whole;
      }
      ∷ normalized_pre_commands entries (suc index)

  -- The rows of a section.
  unfoldable pub section_rows :
      (PlannedDefinition → DefinitionEntity)
      → List (RawCommand Raw)
      → String
      → Result (List DefinitionEntity)
  section_rows entity commands section =
      bind (plan_definitions_for_commands convert new_id commands section [])
        (λ plan. ok (entities entity plan.0))

  -- The rows of an API, before and after the response.
  unfoldable pub api_rows : MockApi Raw → Result (List DefinitionEntity)
  api_rows api =
      bind
        (section_rows (api_entity owner_mock_api_pre api.id)
          (normalized_pre_commands api.pre_response_commands 1) mock_section_pre_response)
        (λ pre.
          bind
            (section_rows (api_entity owner_mock_api_post api.id) (commands_for_item api.commands 1)
              mock_section_post_response)
            (λ post. ok (pre ++ post)))

  abbrev pub Rebuilt : Type 0
  Rebuilt = List DefinitionEntity × List DefinitionEntity

  -- The loop over the APIs, on the table and the rows to be written.
  unfoldable pub rebuild_apis : List (MockApi Raw) → Rebuilt → Result Rebuilt
  rebuild_apis [] r = ok r
  rebuild_apis (api ∷ apis) (table, rows) =
      bind (api_rows api)
        (λ new. rebuild_apis apis (delete_by_mock_server_api_id api.id table, rows ++ new))

  unfoldable pub queue_rows : MockQueue Raw → Result (List DefinitionEntity)
  queue_rows queue =
      section_rows (queue_entity queue.id) (commands_for_item queue.commands 1) mock_section_queue

  -- The loop over the queues.
  unfoldable pub rebuild_queues : List (MockQueue Raw) → Rebuilt → Result Rebuilt
  rebuild_queues [] r = ok r
  rebuild_queues (queue ∷ queues) (table, rows) =
      bind (queue_rows queue)
        (λ new. rebuild_queues queues (delete_by_mock_server_queue_id queue.id table, rows ++ new))

  -- `rebuild_mock_constant_definitions` on the table; an error rolls the table back.
  unfoldable pub rebuild_mock_constant_definitions :
      List (MockApi Raw)
      → List (MockQueue Raw)
      → List DefinitionEntity
      → Result (List DefinitionEntity)
  rebuild_mock_constant_definitions apis queues table =
      bind (rebuild_apis apis (table, []))
        (λ r. bind (rebuild_queues queues r) (λ s. ok (s.0 ++ s.1)))
