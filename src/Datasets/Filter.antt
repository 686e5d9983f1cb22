-- ===== src/Datasets/Filter.antt =====
-- The normal form of a filter, and the operators that fit a parameter's type
-- (app/data_sources/services/dataset_parameter_resolver.py).
pub mod Typed
use quality_flow.Base.{
  ℕ, suc, Bool, true, false, ◌&&◌, ◌||◌, not, String, ◌<>◌, Option, none, some, List, [], ◌∷◌,
  if◌then◌else◌, ◌==◌, one_of, is_nil, Result, ok, err, bind,
}
use quality_flow.Base.Text.{strip, lower, upper, or_else, is_empty, decimal}
use quality_flow.Base.Dict.{Dict, lookup}
use quality_flow.Asserts.{
  Json, null, scalar, text, array, object, JsonArray, empty_array, item, JsonObject, get_field,
}

abbrev pub string_operators : List String
string_operators = "contains" ∷ "starts_with" ∷ "ends_with" ∷ []

abbrev pub set_operators : List String
set_operators = "in" ∷ "not_in" ∷ []

abbrev pub null_operators : List String
null_operators = "is_null" ∷ "is_not_null" ∷ []

abbrev pub supported_operators : List String
supported_operators =
    "eq" ∷ "neq" ∷ "gt" ∷ "gte" ∷ "lt" ∷ "lte" ∷ "contains" ∷ "starts_with" ∷ "ends_with" ∷ "in"
    ∷ "not_in" ∷ "is_null" ∷ "is_not_null" ∷ []

abbrev pub dataset_parameter_type_names : List String
dataset_parameter_type_names =
    "string" ∷ "integer" ∷ "number" ∷ "boolean" ∷ "date" ∷ "datetime" ∷ []

-- `is_operator_compatible` on a type and an operator in normal form
unfoldable pub is_operator_compatible : String → String → Bool
is_operator_compatible type operator =
    if one_of operator ("eq" ∷ "neq" ∷ [])
    then one_of type dataset_parameter_type_names
    else if one_of operator ("gt" ∷ "gte" ∷ "lt" ∷ "lte" ∷ [])
    then one_of type ("integer" ∷ "number" ∷ "date" ∷ "datetime" ∷ [])
    else if one_of operator string_operators
    then type == "string"
    else false

pub data FilterValue : Type 0 where
  no_value : FilterValue
  parameter : String → FilterValue
  literal : Json → FilterValue

pub record Condition : Type 0 where
  pub field : String
  pub operator : String
  pub value : FilterValue

pub data FilterItem : Type 0 where
  condition : Condition → FilterItem
  -- the logic and the conditions
  group : String → List Condition → FilterItem

pub record Filter : Type 0 where
  pub logic : String
  pub items : List FilterItem

abbrev pub is_list : Json → Bool
is_list (array empty_array) = false
is_list (array (item _ _)) = true
is_list v = false

abbrev pub is_text : Json → Bool
is_text (text _) = true
is_text v = false

-- A value that is no reference to a parameter.
unfoldable pub literal_value : String → String → Json → Result FilterValue
literal_value path operator v =
    if one_of operator set_operators && not (is_list v)
    then err (path <> " must be a non-empty array for operator '" <> operator <> "'.")
    else if one_of operator string_operators && not (is_text v)
    then err (path <> " must be a string for operator '" <> operator <> "'.")
    else ok (literal v)

-- The checks of a reference, given the type of its parameter, if that is declared.
unfoldable pub parameter_value : String → String → String → Option String → Result FilterValue
parameter_value path operator name none =
    err (path <> " references unknown dataset parameter '" <> name <> "'.")
parameter_value path operator name (some type) =
    if one_of operator set_operators
    then err (path <> " does not support parameter references for operator '" <> operator <> "'.")
    else if not (is_operator_compatible type operator)
    then err (
        path <> " parameter '" <> name <> "' with type '" <> type
        <> "' is not compatible with operator '" <> operator <> "'.")
    else ok (parameter name)

abbrev pub is_logic : String → Bool
is_logic s = s == "AND" || s == "OR"

abbrev pub group_of : String → String → List Condition → Result FilterItem
group_of path logic [] = err (path <> ".conditions must contain at least one condition.")
group_of path logic (c ∷ cs) = ok (group logic (c ∷ cs))

-- The older form of a filter has conditions and no items: they are one group.
abbrev pub one_group : String → List Condition → List FilterItem
one_group logic [] = []
one_group logic (c ∷ cs) = group logic (c ∷ cs) ∷ []

-- A filter without items is none.
abbrev pub filter_of : String → List FilterItem → Option Filter
filter_of logic [] = none
filter_of logic (i ∷ is) = some (record { logic = logic; items = i ∷ is })

-- `str(v or "")` of an array, an object or a scalar
module _ (to_text : Json → String) where
  -- `str(d.get(key) or "")`
  abbrev pub field_text : Option Json → String
  field_text none = ""
  field_text (some null) = ""
  field_text (some (text s)) = s
  field_text (some v) = to_text v

  abbrev pub is_parameter : JsonObject → Bool
  is_parameter o = lower (strip (field_text (get_field "kind" o))) == "parameter"

  abbrev pub reference_value : String → String → Dict String → String → Result FilterValue
  reference_value path operator parameters name =
      if is_empty name
      then err (path <> ".name is required for parameter references.")
      else parameter_value path operator name (lookup name parameters)

  -- `_normalize_filter_value`, with the types of the parameters by name
  unfoldable pub normalize_filter_value : String → String → Dict String → Json → Result FilterValue
  normalize_filter_value path operator parameters (object o) =
      if is_parameter o
      then reference_value path operator parameters (strip (field_text (get_field "name" o)))
      else literal_value path operator (object o)
  normalize_filter_value path operator parameters v = literal_value path operator v

  abbrev pub required_value : String → String → Dict String → Option Json → Result FilterValue
  required_value path operator parameters none =
      err (path <> ".value is required for operator '" <> operator <> "'.")
  required_value path operator parameters (some v) =
      normalize_filter_value (path <> ".value") operator parameters v

  abbrev pub condition_value : String → String → Dict String → Option Json → Result FilterValue
  condition_value path operator parameters v =
      if one_of operator null_operators
      then ok no_value
      else required_value path operator parameters v

  -- `_normalize_filter_condition`
  unfoldable pub normalize_filter_condition : Json → String → Dict String → Result Condition
  normalize_filter_condition (object o) path parameters =
      let name = strip (field_text (get_field "field" o)) in
      let op = lower (strip (field_text (get_field "operator" o))) in
      if is_empty name
      then err (path <> ".field is required.")
      else if not (one_of op supported_operators)
      then err (path <> ".operator '" <> op <> "' is not supported.")
      else bind (condition_value path op parameters (get_field "value" o))
          (λ v. ok (record { field = name; operator = op; value = v }))
  normalize_filter_condition v path parameters = err (path <> " must be an object.")

  -- The conditions of a list
  unfoldable pub normalize_conditions :
      JsonArray → String → ℕ → Dict String → Result (List Condition)
  normalize_conditions empty_array path index parameters = ok []
  normalize_conditions (item v vs) path index parameters =
      let rest = normalize_conditions vs path (suc index) parameters in
      bind (normalize_filter_condition v (path <> "[" <> decimal index <> "]") parameters)
        (λ c. bind rest (λ cs. ok (c ∷ cs)))

  -- `d.get(key) or []`, where it is a list
  abbrev pub list_or_empty : Option Json → String → Result JsonArray
  list_or_empty none path = ok empty_array
  list_or_empty (some null) path = ok empty_array
  list_or_empty (some (array vs)) path = ok vs
  list_or_empty (some v) path =
      if is_empty (field_text (some v)) then ok empty_array else err (path <> " must be an array.")

  abbrev pub logic_text : JsonObject → String
  logic_text o = upper (strip (or_else (field_text (get_field "logic" o)) "AND"))

  -- The branch of a group
  unfoldable pub normalize_group : JsonObject → String → Dict String → Result FilterItem
  normalize_group o path parameters =
      if not (is_logic (logic_text o))
      then err (path <> ".logic must be AND or OR.")
      else bind (list_or_empty (get_field "conditions" o) (path <> ".conditions")) (λ vs.
        bind (normalize_conditions vs (path <> ".conditions") 0 parameters)
          (λ cs. group_of path (logic_text o) cs))

  -- `_normalize_filter_item`
  unfoldable pub normalize_filter_item : Json → String → Dict String → Result FilterItem
  normalize_filter_item (object o) path parameters =
      let kind = lower (strip (or_else (field_text (get_field "kind" o)) "condition")) in
      if kind == "group"
      then normalize_group o path parameters
      else if not (kind == "condition")
      then err (path <> ".kind must be 'condition' or 'group'.")
      else bind (normalize_filter_condition (object o) path parameters) (λ c. ok (condition c))
  normalize_filter_item v path parameters = err (path <> " must be an object.")

  unfoldable pub normalize_items : JsonArray → String → ℕ → Dict String → Result (List FilterItem)
  normalize_items empty_array path index parameters = ok []
  normalize_items (item v vs) path index parameters =
      let rest = normalize_items vs path (suc index) parameters in
      bind (normalize_filter_item v (path <> "[" <> decimal index <> "]") parameters)
        (λ i. bind rest (λ is. ok (i ∷ is)))

  abbrev pub legacy_items : JsonObject → String → Dict String → Result (List FilterItem)
  legacy_items o logic parameters =
      bind (list_or_empty (get_field "conditions" o) "filter.conditions") (λ vs.
        bind (normalize_conditions vs "filter.conditions" 0 parameters)
          (λ cs. ok (one_group logic cs)))

  abbrev pub filter_items :
      JsonObject → Option Json → String → Dict String → Result (List FilterItem)
  filter_items o none logic parameters = legacy_items o logic parameters
  filter_items o (some null) logic parameters = legacy_items o logic parameters
  filter_items o (some v) logic parameters =
      bind (list_or_empty (some v) "filter.items")
        (λ vs. normalize_items vs "filter.items" 0 parameters)

  -- The part of `normalize` on the filter
  unfoldable pub normalize_filter : Option Json → Dict String → Result (Option Filter)
  normalize_filter none parameters = ok none
  normalize_filter (some null) parameters = ok none
  normalize_filter (some (object o)) parameters =
      if not (is_logic (logic_text o))
      then err "filter.logic must be AND or OR."
      else bind (filter_items o (get_field "items" o) (logic_text o) parameters)
          (λ items. ok (filter_of (logic_text o) items))
  normalize_filter (some v) parameters = err "filter must be an object."
