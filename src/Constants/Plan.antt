-- ===== src/Constants/Plan.antt =====
-- `plan_definitions_for_commands`: the commands of a section in order, each checked against the
-- definitions that it sees, and the definitions that they declare.
pub mod Checks
pub mod Unique
pub mod Invariant
pub mod Carry
pub mod Declared
pub mod Section
use quality_flow.Base.{
  ℕ, zero, suc, ◌+◌, Bool, true, false, ◌&&◌, ◌||◌, not, String, ◌<>◌, Option, none, some, List, [],
  ◌∷◌, ◌++◌, map, ltb, leb, ◌==ℕ◌, if◌then◌else◌, ◌==◌, one_of, is_nil, Result, ok, err, bind,
}
use quality_flow.Base.Int.{ℤ, pos, negsuc, ltb_ℤ, leb_ℤ, ◌==ℤ◌, suc_ℤ}
use quality_flow.Base.Dict.{Dict, lookup, insert}
use quality_flow.Base.Text.{strip, text_ltb, or_empty, or_else, is_empty}
use quality_flow.Constants.Tables.{
  type_compatibility, readable_scopes, writable_scopes, result_type_by_command, run_envelope,
  global, local, result, type_value, type_json, type_json_array, type_dataset,
}
use quality_flow.Constants.Config.{
  ConstantConfig, ConfigClass, delete_constant, init_constant, write_api, ResultConstant, RefRole,
  target, Refs, definition_refs, HttpRequest, HttpValue, HttpFields, no_fields, field, node, object,
  HttpInputNode,
}

pub record CommandInput (Raw : Type 0) : Type 0 where
  pub command_id : String
  pub command_order : ℤ
  pub cfg : Raw

pub record PlannedDefinition : Type 0 where
  pub definition_id : String
  pub command_id : String
  pub command_order : ℤ
  pub section_type : String
  pub name : String
  pub context_scope : String
  pub value_type : String
  pub deleted_at_order : Option ℤ

abbrev pub Definitions : Type 0
Definitions = Dict PlannedDefinition

-- The scopes in a table, none for a section that it lacks.
abbrev pub scopes_of : String → Dict (List String) → List String
scopes_of section table = elim (lookup section table) [ none ↦ [] | some scopes ↦ scopes ]

abbrev pub is_deleted_at : Option ℤ → ℤ → Bool
is_deleted_at none order = false
is_deleted_at (some n) order = leb_ℤ n order

-- What a command at an order sees of a definition.
abbrev pub is_active : List String → ℤ → PlannedDefinition → Bool
is_active scopes order d =
    one_of d.context_scope scopes
    && ltb_ℤ d.command_order order
    && not (is_deleted_at d.deleted_at_order order)

-- `_active_definitions`
unfoldable pub active_definitions : List String → ℤ → Definitions → Definitions
active_definitions scopes order [] = []
active_definitions scopes order ((id, d) ∷ ds) =
    let rest = active_definitions scopes order ds in
    if is_active scopes order d then (id, d) ∷ rest else rest

abbrev carried : PlannedDefinition → PlannedDefinition
carried d = record d { command_order = pos 0 }

abbrev carry : String → Option ℤ → PlannedDefinition → Definitions → Definitions
carry id none d rest = (id, carried d) ∷ rest
carry id (some _) d rest = rest

-- `_carry_over_visible_map`: what is not deleted, as if it were declared before all commands.
unfoldable pub carry_over_visible_map : Definitions → Definitions
carry_over_visible_map [] = []
carry_over_visible_map ((id, d) ∷ ds) = carry id d.deleted_at_order d (carry_over_visible_map ds)

-- `_validate_duplicate_name`
unfoldable pub validate_duplicate_name : Definitions → String → String → Result (Unit {0})
validate_duplicate_name [] name scope = ok tt
validate_duplicate_name ((id, d) ∷ ds) name scope =
    let rest = validate_duplicate_name ds name scope in
    if d.name == name && d.context_scope == scope
    then err ("Constant '" <> name <> "' is already defined in scope '" <> scope <> "'.")
    else rest

-- The type of a constant fits a command that has no entry in the table, or an empty one.
abbrev pub is_compatible : Option (List String) → String → Bool
is_compatible none value_type = true
is_compatible (some types) value_type = is_nil types || one_of value_type types

abbrev pub is_target : RefRole → Bool
is_target target = true
is_target _ = false

-- The checks of one reference that is visible.
unfoldable pub validate_visible_ref :
    String → String → RefRole → PlannedDefinition → Result (Unit {0})
validate_visible_ref command_code section role d =
    if not (is_compatible (lookup command_code type_compatibility) d.value_type)
    then err (
        "Constant '" <> d.name <> "' has incompatible type '" <> d.value_type <> "' for command '"
        <> command_code <> "'.")
    else if is_target role && not (one_of d.context_scope (scopes_of section writable_scopes))
    then err (
        "Constant '" <> d.name <> "' in scope '" <> d.context_scope
        <> "' cannot be deleted in section '" <> section <> "'.")
    else ok tt

unfoldable pub validate_ref :
    String → String → RefRole → String → Option PlannedDefinition → Result (Unit {0})
unfolding validate_visible_ref
validate_ref command_code section role id none =
    err ("Constant reference '" <> id <> "' is not visible for command '" <> command_code <> "'.")
validate_ref command_code section role id (some d) =
    validate_visible_ref command_code section role d

-- The loop over the references of a command.
unfoldable pub validate_refs : String → String → Refs → Definitions → Result (Unit {0})
validate_refs command_code section [] active = ok tt
validate_refs command_code section ((role, id) ∷ refs) active =
    let rest = validate_refs command_code section refs active in
    bind (validate_ref command_code section role id (lookup id active)) (λ _. rest)

abbrev pub form_definition : String → Option PlannedDefinition → Result (Unit {0})
form_definition field_name none = ok tt
form_definition field_name (some d) =
    if one_of d.value_type (type_dataset ∷ type_json_array ∷ [])
    then err (
        "Constant '" <> d.name <> "' has incompatible type '" <> d.value_type
        <> "' for formUrlEncoded field '" <> field_name <> "'.")
    else ok tt

-- A node of a form: no source, and no constant that is an array or a dataset.
abbrev pub form_node : String → HttpInputNode → Definitions → Result (Unit {0})
form_node field_name n active =
    if n.kind == "source"
    then err
        ("Datasource values are not supported for formUrlEncoded field '" <> field_name <> "'.")
    else if n.kind == "runtimeValue"
    then form_definition field_name (lookup (strip (or_empty n.definition_id)) active)
    else ok tt

-- The loop over the fields of a form; what is no node is passed over.
unfoldable pub validate_form_fields : HttpFields → Definitions → Result (Unit {0})
validate_form_fields no_fields active = ok tt
validate_form_fields (field k (node n) fields) active =
    let rest = validate_form_fields fields active in bind (form_node k n active) (λ _. rest)
validate_form_fields (field k v fields) active = validate_form_fields fields active

-- `_validate_form_urlencoded_body_refs`
unfoldable pub validate_form_body : ConfigClass → Definitions → Result (Unit {0})
unfolding validate_form_fields
validate_form_body (write_api request body_type (some (object fields))) active =
    if strip (or_empty body_type) == "formUrlEncoded"
    then validate_form_fields fields active
    else ok tt
validate_form_body c active = ok tt

-- `_validate_ref_visibility`
unfoldable pub validate_ref_visibility :
    ConstantConfig → String → ℤ → Definitions → Result (Unit {0})
validate_ref_visibility cfg section order definitions =
    let active = active_definitions (scopes_of section readable_scopes) order definitions in
    bind (validate_refs cfg.command_code section (definition_refs cfg) active)
      (λ _. validate_form_body cfg.config_class active)

abbrev init_declaration : ConfigClass → String → ℤ → String → List PlannedDefinition
init_declaration (init_constant id name context value_type) command_id order section =
    record {
      definition_id = id;
      command_id = command_id;
      command_order = order;
      section_type = section;
      name = or_empty name;
      context_scope = or_else (or_empty context) local;
      value_type = or_else (or_empty value_type) type_value;
      deleted_at_order = none;
    }
    ∷ []
init_declaration c command_id order section = []

-- `_RESULT_TYPE_BY_COMMAND.get(code, "json")`
abbrev result_type : String → String
result_type code = elim (lookup code result_type_by_command) [ none ↦ type_json | some t ↦ t ]

abbrev result_declaration :
    Option ResultConstant → String → String → ℤ → String → List PlannedDefinition
result_declaration none code command_id order section = []
result_declaration (some r) code command_id order section =
    record {
      definition_id = r.definition_id;
      command_id = command_id;
      command_order = order;
      section_type = section;
      name = r.name;
      context_scope = result;
      value_type = or_else (or_empty r.value_type) (result_type code);
      deleted_at_order = none;
    }
    ∷ []

-- `_planned_declarations`
unfoldable pub planned_declarations : ConstantConfig → String → ℤ → String → List PlannedDefinition
planned_declarations cfg command_id order section =
    init_declaration cfg.config_class command_id order section
    ++ result_declaration cfg.result_constant cfg.command_code command_id order section

abbrev pub not_writable : String → String → String
not_writable scope section =
    "Scope '" <> scope <> "' is not writable in section '" <> section <> "'."

-- The loop of `_validate_declarations`; each declaration joins the active definitions.
unfoldable pub check_declarations :
    String → List PlannedDefinition → Definitions → Result (Unit {0})
check_declarations section [] active = ok tt
check_declarations section (d ∷ ds) active =
    let rest = check_declarations section ds (insert d.definition_id d active) in
    if not (one_of d.context_scope (scopes_of section writable_scopes))
    then err (not_writable d.context_scope section)
    else bind (validate_duplicate_name active d.name d.context_scope) (λ _. rest)

abbrev pub all_scopes : List String
all_scopes = run_envelope ∷ global ∷ local ∷ result ∷ []

-- `_validate_declarations`
unfoldable pub validate_declarations :
    ConstantConfig → String → ℤ → Definitions → String → Result (List PlannedDefinition)
unfolding check_declarations
validate_declarations cfg section order definitions command_id =
    let declarations = planned_declarations cfg command_id order section in
    bind
      (check_declarations section declarations
        (active_definitions all_scopes (suc_ℤ order) definitions))
      (λ _. ok declarations)

-- The definitions of a command join the map.
abbrev pub declare : List PlannedDefinition → Definitions → Definitions
declare [] definitions = definitions
declare (d ∷ ds) definitions = declare ds (insert d.definition_id d definitions)

abbrev pub Plan : Type 0
Plan = List PlannedDefinition × Definitions

-- A deletion marks its target, and declares nothing.
abbrev delete_definition : String → ℤ → Option PlannedDefinition → Definitions → Result Definitions
delete_definition id order none definitions =
    err ("Constant reference '" <> id <> "' is not visible for deleteVariable.")
delete_definition id order (some d) definitions =
    ok (insert id (record d { deleted_at_order = some order }) definitions)

-- What follows the check of the references: the new definitions, and the map.
unfoldable pub plan_class :
    ConstantConfig → ConfigClass → String → ℤ → String → Definitions → Result Plan
plan_class cfg (delete_constant id) section order command_id definitions =
    bind (delete_definition id order (lookup id definitions) definitions) (λ ds. ok ([], ds))
plan_class cfg c section order command_id definitions =
    bind (validate_declarations cfg section order definitions command_id)
      (λ new. ok (new, declare new definitions))

-- One round of the loop over the commands, once the configuration is converted.
unfoldable pub plan_command : String → ConstantConfig → String → ℤ → Definitions → Result Plan
unfolding plan_class
plan_command section cfg command_id order definitions =
    bind (validate_ref_visibility cfg section order definitions)
      (λ _. plan_class cfg cfg.config_class section order command_id definitions)

-- The key of the sort is the order, then the id.
abbrev pub precedes : {Raw : Type 0} → CommandInput Raw → CommandInput Raw → Bool
precedes a b =
    ltb_ℤ a.command_order b.command_order
    || (a.command_order ==ℤ b.command_order && text_ltb a.command_id b.command_id)

unfoldable pub insert_sorted :
    {Raw : Type 0} → CommandInput Raw → List (CommandInput Raw) → List (CommandInput Raw)
insert_sorted c [] = c ∷ []
insert_sorted c (d ∷ ds) = if precedes d c then d ∷ insert_sorted c ds else c ∷ d ∷ ds

-- `commands.sort(…)`: commands of one key stay in their order.
unfoldable pub sort_commands : {Raw : Type 0} → List (CommandInput Raw) → List (CommandInput Raw)
unfolding insert_sorted
sort_commands [] = []
sort_commands (c ∷ cs) = insert_sorted c (sort_commands cs)

-- A command as it is stored, with what its `id` and `order` are.
pub record RawCommand (Raw : Type 0) : Type 0 where
  pub id : Option String
  pub order : Option ℤ
  pub cfg : Raw

-- `v or default` on integers
abbrev pub order_or : Option ℤ → ℕ → ℤ
order_or none default_order = pos default_order
order_or (some (pos zero)) default_order = pos default_order
order_or (some (pos (suc n))) default_order = pos (suc n)
order_or (some (negsuc n)) default_order = negsuc n

-- `ensure_command_id`, given the id that a command without one gets
unfoldable pub ensure_command_id : String → Option String → String
ensure_command_id fresh id = or_else (strip (or_empty id)) fresh

-- `_command_input`
abbrev pub command_input : {Raw : Type 0} → String → RawCommand Raw → ℕ → CommandInput Raw
command_input fresh raw default_order = record {
  command_id = ensure_command_id fresh raw.id;
  command_order = order_or raw.order default_order;
  cfg = raw.cfg;
}

abbrev pub command_inputs :
    {Raw : Type 0} → (ℕ → String) → List (RawCommand Raw) → ℕ → List (CommandInput Raw)
command_inputs new_id [] index = []
command_inputs new_id (raw ∷ raws) index =
    command_input (new_id index) raw index ∷ command_inputs new_id raws (suc index)

-- The conversion of a stored configuration, by data classes of pydantic, and the ids that `uuid4`
-- makes for the commands of a section.
module _ {Raw : Type 0} (convert : Raw → Result ConstantConfig) (new_id : ℕ → String) where
  -- The loop over the commands.
  unfoldable pub plan_commands :
      String → List (CommandInput Raw) → List PlannedDefinition → Definitions → Result Plan
  unfolding plan_command
  plan_commands section [] planned definitions = ok (planned, definitions)
  plan_commands section (c ∷ cs) planned definitions = bind (convert c.cfg) (λ cfg.
      bind (plan_command section cfg c.command_id c.command_order definitions)
        (λ p. plan_commands section cs (planned ++ p.0) p.1))

  -- `plan_definitions_for_commands`
  unfoldable pub plan_definitions_for_commands :
      List (RawCommand Raw) → String → Definitions → Result Plan
  unfolding plan_commands
  plan_definitions_for_commands raws section initial_visible =
      plan_commands section (sort_commands (command_inputs new_id raws 1)) []
        (carry_over_visible_map initial_visible)
