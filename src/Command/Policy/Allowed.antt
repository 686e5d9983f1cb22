-- ===== src/Command/Policy/Allowed.antt =====
-- The policy as a condition on the command, and the validator against it.
use quality_flow.Base.{
  ◌≡◌, refl, ap, subst, ◌∙◌, ◌≢◌, ◌↔◌, ◌⊎◌, inl, inr, true, false, String, Option, none, some, List,
  [], ◌∷◌, All, arith, one_of, ok, bind-eq-ok, Bool-cases,
}
use quality_flow.Base.Text.{strip, is_empty}
use quality_flow.Context.Paths.{extract_context_root}
use quality_flow.Command.Scope.{scope_test, scope_mock_pre_response}
use quality_flow.Command.Contract.{OperationContract, get_operation_contract}
use quality_flow.Command.Policy.{
  CommandConfig, collect_target_paths, validate_scope_rules, validate_root, validate_target_roots,
  validate_contract, validate_operation_policy, is_scope,
}

-- A contract allows an operation in a scope that it lists; before a mock's response it must also
-- have no side effects and not be asynchronous. With no scope there is nothing to hold to.
abbrev pub ScopeAllows : OperationContract → Option String → Type 0
ScopeAllows contract none = Unit
ScopeAllows contract (some scope) =
    (is_empty scope ≡ true)
    ⊎ ((one_of scope contract.supported_scopes ≡ true)
        × (scope ≡ scope_mock_pre_response
            → (contract.side_effects ≡ false) × (contract.async_allowed ≡ false)))

-- A target has a root, and in a test it is neither the global scope nor the envelope.
pub record TargetAllowed (scope : Option String) (target : String) : Type 0 where
  pub root : String
  pub has_root : extract_context_root target ≡ ok (some root)
  pub in_test : is_scope scope scope_test ≡ true → (root ≢ "global") × (root ≢ "runEnvelope")

-- The condition as a whole.
pub record IsAllowed (cfg : CommandConfig) (scope : Option String) (contract : OperationContract)
    : Type 0 where
  pub registered : get_operation_contract (strip cfg.command_code) ≡ some contract
  pub scope_allows : ScopeAllows contract scope
  pub targets_allowed : All (TargetAllowed scope) (collect_target_paths cfg)

validate_scope_rules_sound :
    (contract : OperationContract) (scope : Option String)
    → validate_scope_rules contract scope ≡ ok tt
    → ScopeAllows contract scope
unfolding validate_scope_rules
validate_scope_rules_sound contract none h = tt
validate_scope_rules_sound contract (some scope) h = elim (Bool-cases (is_empty scope)) [
  | inl empty ↦ inl empty
  | inr given ↦ inr (ground arith, λ e. (ground arith, ground arith))
]

validate_scope_rules_complete :
    (contract : OperationContract) (scope : Option String)
    → ScopeAllows contract scope
    → validate_scope_rules contract scope ≡ ok tt
unfolding validate_scope_rules
validate_scope_rules_complete contract none h = refl
validate_scope_rules_complete contract (some scope) h = ground arith

validate_root_sound :
    (scope : Option String) (target : String) (root : Option String)
    → validate_root scope target root ≡ ok tt
    → (r : String) × (root ≡ some r)
      × (is_scope scope scope_test ≡ true → (r ≢ "global") × (r ≢ "runEnvelope"))
validate_root_sound scope target none h = cc
validate_root_sound scope target (some r) h =
    (r, refl, λ test. ((λ e. ground arith), (λ e. ground arith)))

validate_target_roots_sound :
    (targets : List String) (scope : Option String)
    → validate_target_roots targets scope ≡ ok tt
    → All (TargetAllowed scope) targets
unfolding validate_target_roots
validate_target_roots_sound [] scope h = tt
validate_target_roots_sound (t ∷ ts) scope h =
    let (_, e, f) = bind-eq-ok _ _ h in
    let (root, g, k) = bind-eq-ok _ _ e in
    let (r, same, in_test) = validate_root_sound scope t root k in
    (
      record { root = r; has_root = g ∙ ap ok same; in_test = in_test },
      validate_target_roots_sound ts scope f,
    )

validate_target_roots_complete :
    (targets : List String) (scope : Option String)
    → All (TargetAllowed scope) targets
    → validate_target_roots targets scope ≡ ok tt
unfolding validate_target_roots
validate_target_roots_complete [] scope h = refl
validate_target_roots_complete (t ∷ ts) scope (a, h) =
    rw a.has_root (ground (arith, validate_target_roots_complete ts scope h, a.in_test))

contract_sound :
    (cfg : CommandConfig) (scope : Option String) (found : Option OperationContract)
    (contract : OperationContract)
    → validate_contract cfg scope found ≡ ok contract
    → (found ≡ some contract)
      × ScopeAllows contract scope
      × All (TargetAllowed scope) (collect_target_paths cfg)
unfolding validate_contract
contract_sound cfg scope none contract h = cc
contract_sound cfg scope (some c) contract h =
    let (_, e, f) = bind-eq-ok (validate_scope_rules c scope) _ h in
    let (_, g, k) = bind-eq-ok (validate_target_roots (collect_target_paths cfg) scope) _ f in
    let same : c ≡ contract = ground arith in
    (
      ap some same,
      subst (λ d. ScopeAllows d scope) same (validate_scope_rules_sound c scope e),
      validate_target_roots_sound _ scope g,
    )

-- The validator accepts a command in a scope, and returns a contract, exactly if the contract is
-- the registered one, it allows the scope, and every path that the command writes to is allowed.
pub validate_operation_policy_iff :
    (cfg : CommandConfig) (scope : Option String) (contract : OperationContract)
    → (validate_operation_policy cfg scope ≡ ok contract) ↔ IsAllowed cfg scope contract
unfolding validate_operation_policy
validate_operation_policy_iff cfg scope contract = (sound, complete)
  where
    complete : IsAllowed cfg scope contract → validate_operation_policy cfg scope ≡ ok contract
    complete h = rw (
      h.registered,
      validate_contract,
      validate_scope_rules_complete contract scope h.scope_allows,
      validate_target_roots_complete _ scope h.targets_allowed,
    )

    sound : validate_operation_policy cfg scope ≡ ok contract → IsAllowed cfg scope contract
    sound h =
        let (e, f, g) = contract_sound cfg scope _ contract h in
        record { registered = e; scope_allows = f; targets_allowed = g }
