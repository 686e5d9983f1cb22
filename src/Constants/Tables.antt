-- ===== src/Constants/Tables.antt =====
-- The tables of the registry: sections, scopes and types of values.
use quality_flow.Base.{String, List, [], ◌∷◌, Option}
use quality_flow.Base.Dict.{Dict, lookup}
use quality_flow.Command.Scope.{
  scope_test, scope_hook_before_all, scope_hook_before_each, scope_hook_after_each,
  scope_hook_after_all, scope_mock_pre_response, scope_mock_post_response,
}

abbrev pub suite_section_test : String
suite_section_test = "test"

abbrev pub suite_section_before_all : String
suite_section_before_all = "beforeAll"

abbrev pub suite_section_before_each : String
suite_section_before_each = "beforeEach"

abbrev pub suite_section_after_each : String
suite_section_after_each = "afterEach"

abbrev pub suite_section_after_all : String
suite_section_after_all = "afterAll"

abbrev pub mock_section_pre_response : String
mock_section_pre_response = "mock.preResponse"

abbrev pub mock_section_post_response : String
mock_section_post_response = "mock.postResponse"

abbrev pub mock_section_queue : String
mock_section_queue = "mock.queue"

abbrev pub owner_suite : String
owner_suite = "suite"

abbrev pub owner_mock_api_pre : String
owner_mock_api_pre = "mock_api_pre"

abbrev pub owner_mock_api_post : String
owner_mock_api_post = "mock_api_post"

abbrev pub owner_mock_queue : String
owner_mock_queue = "mock_queue"

-- `ConstantContext`
abbrev pub run_envelope : String
run_envelope = "runEnvelope"

abbrev pub global : String
global = "global"

abbrev pub local : String
local = "local"

abbrev pub result : String
result = "result"

-- `ConstantSourceType`; its `RAW` is `VALUE`
abbrev pub type_value : String
type_value = "value"

abbrev pub type_json : String
type_json = "json"

abbrev pub type_json_array : String
type_json_array = "jsonArray"

abbrev pub type_dataset : String
type_dataset = "dataset"

-- `_TYPE_COMPATIBILITY`
abbrev pub type_compatibility : Dict (List String)
type_compatibility =
    ("sendMessageQueue", type_value ∷ type_json ∷ type_json_array ∷ type_dataset ∷ [])
    ∷ ("saveTable", type_json ∷ type_json_array ∷ type_dataset ∷ [])
    ∷ ("exportDataset", type_json ∷ type_json_array ∷ type_dataset ∷ [])
    ∷ ("jsonEquals", type_json ∷ type_value ∷ [])
    ∷ ("jsonEmpty", type_json ∷ type_value ∷ [])
    ∷ ("jsonNotEmpty", type_json ∷ type_value ∷ [])
    ∷ ("jsonContains", type_json ∷ type_value ∷ [])
    ∷ ("jsonArrayEquals", type_json_array ∷ [])
    ∷ ("jsonArrayEmpty", type_json_array ∷ [])
    ∷ ("jsonArrayNotEmpty", type_json_array ∷ [])
    ∷ ("jsonArrayContains", type_json_array ∷ [])
    ∷ []

-- `_READABLE_SCOPES`
abbrev pub readable_scopes : Dict (List String)
readable_scopes =
    (suite_section_before_all, run_envelope ∷ result ∷ [])
    ∷ (suite_section_before_each, run_envelope ∷ global ∷ result ∷ [])
    ∷ (suite_section_test, run_envelope ∷ global ∷ local ∷ result ∷ [])
    ∷ (suite_section_after_each, run_envelope ∷ global ∷ local ∷ result ∷ [])
    ∷ (suite_section_after_all, run_envelope ∷ global ∷ result ∷ [])
    ∷ (mock_section_pre_response, run_envelope ∷ result ∷ [])
    ∷ (mock_section_post_response, run_envelope ∷ result ∷ [])
    ∷ (mock_section_queue, run_envelope ∷ result ∷ [])
    ∷ []

-- `_WRITABLE_SCOPES`
abbrev pub writable_scopes : Dict (List String)
writable_scopes =
    (suite_section_before_all, global ∷ result ∷ [])
    ∷ (suite_section_before_each, local ∷ result ∷ [])
    ∷ (suite_section_test, local ∷ result ∷ [])
    ∷ (suite_section_after_each, local ∷ result ∷ [])
    ∷ (suite_section_after_all, global ∷ result ∷ [])
    ∷ (mock_section_pre_response, run_envelope ∷ result ∷ [])
    ∷ (mock_section_post_response, result ∷ [])
    ∷ (mock_section_queue, result ∷ [])
    ∷ []

-- `_SECTION_SCOPE_TO_EXECUTION_SCOPE`
abbrev pub section_scope_to_execution_scope : Dict String
section_scope_to_execution_scope =
    (suite_section_before_all, scope_hook_before_all)
    ∷ (suite_section_before_each, scope_hook_before_each)
    ∷ (suite_section_test, scope_test)
    ∷ (suite_section_after_each, scope_hook_after_each)
    ∷ (suite_section_after_all, scope_hook_after_all)
    ∷ (mock_section_pre_response, scope_mock_pre_response)
    ∷ (mock_section_post_response, scope_mock_post_response)
    ∷ []

-- `_RESULT_TYPE_BY_COMMAND`
abbrev pub result_type_by_command : Dict String
result_type_by_command =
    ("readApi", type_json)
    ∷ ("writeApi", type_json)
    ∷ ("sendMessageQueue", type_json)
    ∷ ("saveTable", type_json)
    ∷ ("exportDataset", type_json)
    ∷ ("runSuite", type_json)
    ∷ ("sleep", type_json)
    ∷ ("jsonEquals", type_json)
    ∷ ("jsonEmpty", type_json)
    ∷ ("jsonNotEmpty", type_json)
    ∷ ("jsonContains", type_json)
    ∷ ("jsonArrayEquals", type_json)
    ∷ ("jsonArrayEmpty", type_json)
    ∷ ("jsonArrayNotEmpty", type_json)
    ∷ ("jsonArrayContains", type_json)
    ∷ []

-- `resolve_execution_scope_for_section`
unfoldable pub resolve_execution_scope_for_section : String → Option String
resolve_execution_scope_for_section section = lookup section section_scope_to_execution_scope
