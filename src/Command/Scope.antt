-- ===== src/Command/Scope.antt =====
-- Execution scopes: app/elaborations/services/operations/command_scope.py.
use quality_flow.Base.{String, Option, none, some, [], ◌∷◌, if◌then◌else◌, ◌==◌}
use quality_flow.Base.Dict.{Dict, lookup}
use quality_flow.Base.Text.{strip, lower, or_empty, or_none}
use quality_flow.Context.Record.{RunContext, kind_test, kind_hook}

abbrev pub scope_test : String
scope_test = "test"

abbrev pub scope_hook_before_all : String
scope_hook_before_all = "hook.beforeAll"

abbrev pub scope_hook_before_each : String
scope_hook_before_each = "hook.beforeEach"

abbrev pub scope_hook_after_each : String
scope_hook_after_each = "hook.afterEach"

abbrev pub scope_hook_after_all : String
scope_hook_after_all = "hook.afterAll"

abbrev pub scope_mock_pre_response : String
scope_mock_pre_response = "mock.preResponse"

abbrev pub scope_mock_response : String
scope_mock_response = "mock.response"

abbrev pub scope_mock_post_response : String
scope_mock_post_response = "mock.postResponse"

-- `_HOOK_PHASE_TO_SCOPE`
abbrev pub hook_phase_to_scope : Dict String
hook_phase_to_scope =
    ("before-all", scope_hook_before_all)
    ∷ ("before-each", scope_hook_before_each)
    ∷ ("after-each", scope_hook_after_each)
    ∷ ("after-all", scope_hook_after_all)
    ∷ []

-- `normalize_scope`
unfoldable pub normalize_scope : Option String → Option String
normalize_scope scope = or_none (strip (or_empty scope))

-- The scope of the item that a run context is bound to.
unfoldable pub context_scope : RunContext → Option String
context_scope c =
    let item_kind = lower (strip c.current_item_kind) in
    if item_kind == kind_test
    then some scope_test
    else if item_kind == kind_hook
    then lookup (lower (strip (or_empty c.current_hook_phase))) hook_phase_to_scope
    else none

-- `resolve_execution_scope`
unfoldable pub resolve_execution_scope : Option RunContext → Option String → Option String
unfolding context_scope
resolve_execution_scope run_context explicit_scope = elim (normalize_scope explicit_scope) [
  | some scope ↦ some scope
  | none ↦ elim run_context [ none ↦ none | some c ↦ context_scope c ]
]
