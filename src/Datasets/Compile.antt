-- ===== src/Datasets/Compile.antt =====
-- The conditions of a query: `_compile_condition`, `_compile_filter_item` and the part of `compile` on
-- the filter. An SQLAlchemy expression is the data from which it is built.
pub mod Total
use quality_flow.Base.{
  Bool, true, false, not, String, ◌<>◌, Option, none, some, List, [], ◌∷◌, if◌then◌else◌, ◌==◌,
  one_of, Result, ok, err, bind,
}
use quality_flow.Base.Dict.{Dict, lookup}
use quality_flow.Asserts.{Json, null, scalar}
use quality_flow.Datasets.Filter.{
  FilterValue, no_value, parameter, literal, Condition, FilterItem, condition, group, Filter,
}

-- A condition on a column.
pub data Clause : Type 0 where
  is_none is_not_none : String → Clause
  -- the operator, the column and the value
  test : String → String → Json → Clause

pub data Expression : Type 0 where
  clause : Clause → Expression
  all_of any_of : List Clause → Expression

pub record WhereClause : Type 0 where
  pub is_any : Bool
  pub expressions : List Expression

-- The value of a condition; an operator on null has none.
abbrev pub value_of : FilterValue → Dict Json → Result Json
value_of no_value resolved = ok null
value_of (literal v) resolved = ok v
value_of (parameter name) resolved = elim (lookup name resolved) [
  | some v ↦ ok v
  | none ↦ err ("Resolved dataset parameter '" <> name <> "' is missing.")
]

abbrev pub equal_to : String → String → (String → Clause) → Json → Clause
equal_to operator field on_null null = on_null field
equal_to operator field on_null v = test operator field v

-- The operators of comparison that SQLAlchemy refuses on None, True and False.
abbrev pub compared_operators : List String
compared_operators = "gt" ∷ "gte" ∷ "lt" ∷ "lte" ∷ "contains" ∷ "starts_with" ∷ "ends_with" ∷ []

abbrev pub is_comparable : Json → Bool
is_comparable null = false
is_comparable (scalar t) = not (one_of t ("true" ∷ "false" ∷ []))
is_comparable v = true

-- The chain of tests of the operator.
unfoldable pub compile_operator : String → String → Json → Result Clause
compile_operator operator field v =
    if operator == "eq"
    then ok (equal_to operator field is_none v)
    else if operator == "neq"
    then ok (equal_to operator field is_not_none v)
    else if one_of operator compared_operators
    then (if is_comparable v
        then ok (test operator field v)
        else err
            "Only '=', '!=', 'is_()', 'is_not()', 'is_distinct_from()', 'is_not_distinct_from()' operators can be used with None/True/False")
    else if one_of operator ("in" ∷ "not_in" ∷ [])
    then ok (test operator field v)
    else if operator == "is_null"
    then ok (is_none field)
    else if operator == "is_not_null"
    then ok (is_not_none field)
    else err ("Unsupported operator '" <> operator <> "'.")

-- `_compile_condition`
unfoldable pub compile_condition : List String → Dict Json → Condition → Result Clause
compile_condition columns resolved c =
    if one_of c.field columns
    then bind (value_of c.value resolved) (λ v. compile_operator c.operator c.field v)
    else err ("Filter field '" <> c.field <> "' does not exist.")

unfoldable pub compile_conditions : List String → Dict Json → List Condition → Result (List Clause)
compile_conditions columns resolved [] = ok []
compile_conditions columns resolved (c ∷ cs) =
    let rest = compile_conditions columns resolved cs in
    bind (compile_condition columns resolved c) (λ x. bind rest (λ xs. ok (x ∷ xs)))

-- `_compile_filter_item`
unfoldable pub compile_filter_item : List String → Dict Json → FilterItem → Result Expression
compile_filter_item columns resolved (condition c) =
    bind (compile_condition columns resolved c) (λ x. ok (clause x))
compile_filter_item columns resolved (group logic cs) =
    bind (compile_conditions columns resolved cs)
      (λ xs. ok (if logic == "OR" then any_of xs else all_of xs))

unfoldable pub compile_items : List String → Dict Json → List FilterItem → Result (List Expression)
compile_items columns resolved [] = ok []
compile_items columns resolved (i ∷ is) =
    let rest = compile_items columns resolved is in
    bind (compile_filter_item columns resolved i) (λ x. bind rest (λ xs. ok (x ∷ xs)))

-- The part of `compile` on the filter: `where`, if there is one.
unfoldable pub compile_filter :
    List String → Dict Json → Option Filter → Result (Option WhereClause)
compile_filter columns resolved none = ok none
compile_filter columns resolved (some f) =
    bind (compile_items columns resolved f.items)
      (λ xs. ok (some (record { is_any = f.logic == "OR"; expressions = xs })))
