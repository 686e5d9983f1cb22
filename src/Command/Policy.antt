-- ===== src/Command/Policy.antt =====
-- What a command is allowed to do where: app/elaborations/services/operations/command_policy_validator.py.
pub mod Allowed
use quality_flow.Base.{
  Bool, false, ◌&&◌, ◌||◌, not, String, ◌<>◌, Option, none, some, List, [], ◌∷◌, ◌++◌,
  if◌then◌else◌, ◌==◌, one_of, Result, ok, err, bind,
}
use quality_flow.Base.Dict.{Dict}
use quality_flow.Base.Text.{strip, is_empty}
use quality_flow.Context.Store.{Value}
use quality_flow.Context.Paths.{extract_context_root}
use quality_flow.Command.Scope.{scope_test, scope_mock_pre_response}
use quality_flow.Command.Contract.{OperationContract, get_operation_contract}

-- A command's configuration. Of the fields that the policy reads, one is `none` where the command's
-- class has no such field, or no text in it.
pub record CommandConfig : Type 0 where
  pub command_code : String
  pub target : Option String
  pub context : Option String
  pub name : Option String
  pub result_target : Option String
  -- the name of `resultConstant`
  pub result_constant : Option String
  -- the fields that only the executors read
  pub other_fields : Dict Value

abbrev is_blank : String → Bool
is_blank s = is_empty (strip s)

abbrev text_targets : Option String → List String
text_targets none = []
text_targets (some t) = if is_blank t then [] else t ∷ []

abbrev constant_targets : Option String → Option String → List String
constant_targets (some context) (some name) =
    if is_blank context || is_blank name
    then []
    else ("$." <> context <> ".constants." <> name) ∷ []
constant_targets (some context) none = []
constant_targets none name = []

abbrev result_constant_targets : Option String → List String
result_constant_targets none = []
result_constant_targets (some name) =
    if is_empty name then [] else ("$.result.constants." <> name) ∷ []

-- `_collect_target_paths`
unfoldable pub collect_target_paths : CommandConfig → List String
collect_target_paths cfg =
    text_targets cfg.target
    ++ (constant_targets cfg.context cfg.name
        ++ (text_targets cfg.result_target ++ result_constant_targets cfg.result_constant))

-- `_validate_scope_rules`; an absent scope is `None` or empty
unfoldable pub validate_scope_rules : OperationContract → Option String → Result (Unit {0})
validate_scope_rules contract none = ok tt
validate_scope_rules contract (some execution_scope) =
    if is_empty execution_scope
    then ok tt
    else if not (one_of execution_scope contract.supported_scopes)
    then err
        ("Operation '" <> contract.name <> "' is not allowed in scope '" <> execution_scope <> "'.")
    else if execution_scope == scope_mock_pre_response && contract.side_effects
    then err
        ("Operation '" <> contract.name <> "' has side effects and cannot run in mock.preResponse.")
    else if execution_scope == scope_mock_pre_response && contract.async_allowed
    then err
        ("Operation '" <> contract.name <> "' is async-enabled and cannot run in mock.preResponse.")
    else ok tt

abbrev pub is_scope : Option String → String → Bool
is_scope none s = false
is_scope (some scope) s = scope == s

-- One round of `_validate_target_roots`.
abbrev pub validate_root : Option String → String → Option String → Result (Unit {0})
validate_root scope target none = err (
    "Unsupported target path '" <> target <> "'. Use $.runEnvelope, $.global, $.local or $.result.")
validate_root scope target (some root) =
    if is_scope scope scope_test && root == "global"
    then err "Global context is immutable during test execution."
    else if is_scope scope scope_test && root == "runEnvelope"
    then err "RunEnvelope context is immutable during test execution."
    else ok tt

-- `_validate_target_roots`
unfoldable pub validate_target_roots : List String → Option String → Result (Unit {0})
validate_target_roots [] scope = ok tt
validate_target_roots (target ∷ targets) scope =
    let rest = validate_target_roots targets scope in
    bind (bind (extract_context_root target) (validate_root scope target)) (λ _. rest)

-- The checks against the contract, if there is one.
unfoldable pub validate_contract :
    CommandConfig → Option String → Option OperationContract → Result OperationContract
validate_contract cfg scope none =
    err ("No command contract found for commandCode '" <> strip cfg.command_code <> "'.")
validate_contract cfg scope (some contract) =
    bind (validate_scope_rules contract scope)
      (λ _. bind (validate_target_roots (collect_target_paths cfg) scope) (λ _. ok contract))

-- `validate_operation_policy`
unfoldable pub validate_operation_policy : CommandConfig → Option String → Result OperationContract
unfolding validate_contract
validate_operation_policy cfg execution_scope =
    validate_contract cfg execution_scope (get_operation_contract (strip cfg.command_code))
