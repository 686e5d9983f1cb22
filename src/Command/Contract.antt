-- ===== src/Command/Contract.antt =====
-- The registry of contracts: app/elaborations/services/operations/command_contract_registry.py.
use quality_flow.Base.{Bool, true, false, String, Option, List, [], ◌∷◌, ◌++◌}
use quality_flow.Base.Dict.{Dict, lookup}
use quality_flow.Base.Text.{strip}
use quality_flow.Command.Scope.{
  scope_test, scope_hook_before_all, scope_hook_before_each, scope_hook_after_each,
  scope_hook_after_all, scope_mock_pre_response, scope_mock_post_response,
}

pub record OperationContract : Type 0 where
  pub family : String
  pub name : String
  pub supported_scopes : List String
  pub reads_from : List String
  pub writes_to : List String
  pub produces_result : Bool
  pub side_effects : Bool
  pub async_allowed : Bool
  pub failure_mode : String

abbrev hook_scopes : List String
hook_scopes =
    scope_hook_before_all ∷ scope_hook_before_each ∷ scope_hook_after_each ∷ scope_hook_after_all
    ∷ []

abbrev hook_and_test_scopes : List String
hook_and_test_scopes = scope_test ∷ hook_scopes

abbrev context_contracts : Dict OperationContract
context_contracts =
    (
      "setVariable",
      record {
        family = "context";
        name = "setVariable";
        supported_scopes = (scope_test ∷ (hook_scopes ++ (scope_mock_pre_response ∷ [])));
        reads_from = ("runEnvelope" ∷ "global" ∷ "local" ∷ []);
        writes_to = ("runEnvelope" ∷ "global" ∷ "local" ∷ "result" ∷ []);
        produces_result = true;
        side_effects = false;
        async_allowed = false;
        failure_mode = "fail-fast";
      },
    )
    ∷ (
      "deleteVariable",
      record {
        family = "context";
        name = "deleteVariable";
        supported_scopes = hook_and_test_scopes;
        reads_from = ("runEnvelope" ∷ "global" ∷ "local" ∷ []);
        writes_to = ("global" ∷ "local" ∷ "result" ∷ []);
        produces_result = true;
        side_effects = false;
        async_allowed = false;
        failure_mode = "fail-fast";
      },
    )
    ∷ []

abbrev action_contracts : Dict OperationContract
action_contracts =
    (
      "sleep",
      record {
        family = "action";
        name = "sleep";
        supported_scopes = hook_and_test_scopes;
        reads_from = ("local" ∷ []);
        writes_to = ("result" ∷ []);
        produces_result = true;
        side_effects = false;
        async_allowed = false;
        failure_mode = "fail-fast";
      },
    )
    ∷ (
      "readApi",
      record {
        family = "action";
        name = "readApi";
        supported_scopes = (scope_test ∷ (hook_scopes ++ (scope_mock_post_response ∷ [])));
        reads_from = ("runEnvelope" ∷ "global" ∷ "local" ∷ []);
        writes_to = ("result" ∷ []);
        produces_result = true;
        side_effects = true;
        async_allowed = true;
        failure_mode = "fail-fast";
      },
    )
    ∷ (
      "writeApi",
      record {
        family = "action";
        name = "writeApi";
        supported_scopes = (scope_test ∷ (hook_scopes ++ (scope_mock_post_response ∷ [])));
        reads_from = ("runEnvelope" ∷ "global" ∷ "local" ∷ []);
        writes_to = ("result" ∷ []);
        produces_result = true;
        side_effects = true;
        async_allowed = true;
        failure_mode = "fail-fast";
      },
    )
    ∷ (
      "sendMessageQueue",
      record {
        family = "action";
        name = "sendMessageQueue";
        supported_scopes = (scope_test ∷ (hook_scopes ++ (scope_mock_post_response ∷ [])));
        reads_from = ("runEnvelope" ∷ "global" ∷ "local" ∷ []);
        writes_to = ("result" ∷ []);
        produces_result = true;
        side_effects = true;
        async_allowed = true;
        failure_mode = "fail-fast";
      },
    )
    ∷ (
      "saveTable",
      record {
        family = "action";
        name = "saveTable";
        supported_scopes = (scope_test ∷ (hook_scopes ++ (scope_mock_post_response ∷ [])));
        reads_from = ("runEnvelope" ∷ "global" ∷ "local" ∷ []);
        writes_to = ("result" ∷ []);
        produces_result = true;
        side_effects = true;
        async_allowed = true;
        failure_mode = "fail-fast";
      },
    )
    ∷ (
      "dropTable",
      record {
        family = "action";
        name = "dropTable";
        supported_scopes = (scope_test ∷ (hook_scopes ++ (scope_mock_post_response ∷ [])));
        reads_from = [];
        writes_to = ("result" ∷ []);
        produces_result = true;
        side_effects = true;
        async_allowed = true;
        failure_mode = "fail-fast";
      },
    )
    ∷ (
      "cleanTable",
      record {
        family = "action";
        name = "cleanTable";
        supported_scopes = (scope_test ∷ (hook_scopes ++ (scope_mock_post_response ∷ [])));
        reads_from = [];
        writes_to = ("result" ∷ []);
        produces_result = true;
        side_effects = true;
        async_allowed = true;
        failure_mode = "fail-fast";
      },
    )
    ∷ (
      "exportDataset",
      record {
        family = "action";
        name = "exportDataset";
        supported_scopes = (scope_test ∷ (hook_scopes ++ (scope_mock_post_response ∷ [])));
        reads_from = ("runEnvelope" ∷ "global" ∷ "local" ∷ []);
        writes_to = ("result" ∷ []);
        produces_result = true;
        side_effects = true;
        async_allowed = true;
        failure_mode = "fail-fast";
      },
    )
    ∷ (
      "dropDataset",
      record {
        family = "action";
        name = "dropDataset";
        supported_scopes = (scope_test ∷ (hook_scopes ++ (scope_mock_post_response ∷ [])));
        reads_from = [];
        writes_to = ("result" ∷ []);
        produces_result = true;
        side_effects = true;
        async_allowed = true;
        failure_mode = "fail-fast";
      },
    )
    ∷ (
      "cleanDataset",
      record {
        family = "action";
        name = "cleanDataset";
        supported_scopes = (scope_test ∷ (hook_scopes ++ (scope_mock_post_response ∷ [])));
        reads_from = [];
        writes_to = ("result" ∷ []);
        produces_result = true;
        side_effects = true;
        async_allowed = true;
        failure_mode = "fail-fast";
      },
    )
    ∷ (
      "runSuite",
      record {
        family = "action";
        name = "runSuite";
        supported_scopes = (scope_test ∷ (hook_scopes ++ (scope_mock_post_response ∷ [])));
        reads_from = ("runEnvelope" ∷ "global" ∷ "local" ∷ []);
        writes_to = ("result" ∷ []);
        produces_result = true;
        side_effects = true;
        async_allowed = true;
        failure_mode = "fail-fast";
      },
    )
    ∷ (
      "receiveQueue",
      record {
        family = "action";
        name = "receiveQueue";
        supported_scopes = (scope_test ∷ (hook_scopes ++ (scope_mock_post_response ∷ [])));
        reads_from = ("runEnvelope" ∷ "global" ∷ "local" ∷ []);
        writes_to = ("runEnvelope" ∷ "local" ∷ "result" ∷ []);
        produces_result = true;
        side_effects = false;
        async_allowed = false;
        failure_mode = "fail-fast";
      },
    )
    ∷ (
      "queryDatabase",
      record {
        family = "action";
        name = "queryDatabase";
        supported_scopes = (scope_test ∷ (hook_scopes ++ (scope_mock_post_response ∷ [])));
        reads_from = ("runEnvelope" ∷ "global" ∷ "local" ∷ []);
        writes_to = ("runEnvelope" ∷ "local" ∷ "result" ∷ []);
        produces_result = true;
        side_effects = false;
        async_allowed = false;
        failure_mode = "fail-fast";
      },
    )
    ∷ []

abbrev assert_contracts : Dict OperationContract
assert_contracts =
    (
      "jsonEquals",
      record {
        family = "assert";
        name = "jsonEquals";
        supported_scopes = (scope_test ∷ scope_mock_pre_response ∷ []);
        reads_from = ("runEnvelope" ∷ "global" ∷ "local" ∷ "result" ∷ []);
        writes_to = ("result" ∷ []);
        produces_result = true;
        side_effects = false;
        async_allowed = false;
        failure_mode = "fail-fast";
      },
    )
    ∷ (
      "jsonEmpty",
      record {
        family = "assert";
        name = "jsonEmpty";
        supported_scopes = (scope_test ∷ scope_mock_pre_response ∷ []);
        reads_from = ("runEnvelope" ∷ "global" ∷ "local" ∷ "result" ∷ []);
        writes_to = ("result" ∷ []);
        produces_result = true;
        side_effects = false;
        async_allowed = false;
        failure_mode = "fail-fast";
      },
    )
    ∷ (
      "jsonNotEmpty",
      record {
        family = "assert";
        name = "jsonNotEmpty";
        supported_scopes = (scope_test ∷ scope_mock_pre_response ∷ []);
        reads_from = ("runEnvelope" ∷ "global" ∷ "local" ∷ "result" ∷ []);
        writes_to = ("result" ∷ []);
        produces_result = true;
        side_effects = false;
        async_allowed = false;
        failure_mode = "fail-fast";
      },
    )
    ∷ (
      "jsonContains",
      record {
        family = "assert";
        name = "jsonContains";
        supported_scopes = (scope_test ∷ scope_mock_pre_response ∷ []);
        reads_from = ("runEnvelope" ∷ "global" ∷ "local" ∷ "result" ∷ []);
        writes_to = ("result" ∷ []);
        produces_result = true;
        side_effects = false;
        async_allowed = false;
        failure_mode = "fail-fast";
      },
    )
    ∷ (
      "jsonArrayEquals",
      record {
        family = "assert";
        name = "jsonArrayEquals";
        supported_scopes = (scope_test ∷ scope_mock_pre_response ∷ []);
        reads_from = ("runEnvelope" ∷ "global" ∷ "local" ∷ "result" ∷ []);
        writes_to = ("result" ∷ []);
        produces_result = true;
        side_effects = false;
        async_allowed = false;
        failure_mode = "fail-fast";
      },
    )
    ∷ (
      "jsonArrayEmpty",
      record {
        family = "assert";
        name = "jsonArrayEmpty";
        supported_scopes = (scope_test ∷ scope_mock_pre_response ∷ []);
        reads_from = ("runEnvelope" ∷ "global" ∷ "local" ∷ "result" ∷ []);
        writes_to = ("result" ∷ []);
        produces_result = true;
        side_effects = false;
        async_allowed = false;
        failure_mode = "fail-fast";
      },
    )
    ∷ (
      "jsonArrayNotEmpty",
      record {
        family = "assert";
        name = "jsonArrayNotEmpty";
        supported_scopes = (scope_test ∷ scope_mock_pre_response ∷ []);
        reads_from = ("runEnvelope" ∷ "global" ∷ "local" ∷ "result" ∷ []);
        writes_to = ("result" ∷ []);
        produces_result = true;
        side_effects = false;
        async_allowed = false;
        failure_mode = "fail-fast";
      },
    )
    ∷ (
      "jsonArrayContains",
      record {
        family = "assert";
        name = "jsonArrayContains";
        supported_scopes = (scope_test ∷ scope_mock_pre_response ∷ []);
        reads_from = ("runEnvelope" ∷ "global" ∷ "local" ∷ "result" ∷ []);
        writes_to = ("result" ∷ []);
        produces_result = true;
        side_effects = false;
        async_allowed = false;
        failure_mode = "fail-fast";
      },
    )
    ∷ []

-- `_CONTRACTS`
abbrev pub contracts : Dict OperationContract
contracts = context_contracts ++ action_contracts ++ assert_contracts

-- `get_operation_contract`
unfoldable pub get_operation_contract : String → Option OperationContract
get_operation_contract operation_type = lookup (strip operation_type) contracts
