-- ===== src/Datasets/Tests.antt =====
-- The theorems on filters at one that compares a column with a parameter.
use quality_flow.Base.{
  refl, ◌≡◌, true, false, ◌&&◌, String, Option, none, some, List, [], ◌∷◌, ok, is_ok, text_dec,
}
use quality_flow.Base.Text.{strip, lstrip, rstrip, lower, upper}
use quality_flow.Base.Dict.{Dict, lookup}
use quality_flow.Asserts.{
  Json, scalar, text, array, object, JsonObject, empty_array, item, empty_object, field, get_field,
}
use quality_flow.Datasets.Filter.{
  parameter, condition, Filter, is_operator_compatible, parameter_value, normalize_filter_value,
  normalize_filter_condition, normalize_filter_item, normalize_items, normalize_filter,
}
use quality_flow.Datasets.Filter.Typed.{IsTyped, OfFilter, normalize_filter-IsTyped}
use quality_flow.Datasets.Compile.{compile_filter}
use quality_flow.Datasets.Compile.Total.{filter_is_resolvable}
use quality_flow.Datasets.Query.{
  Perimeter, Query, normalize_query, normalize_selected_columns, normalize_columns, normalize_sort,
  normalize_sort_items, check_columns, chosen_columns, compile_sort, compile_query,
}
use quality_flow.Datasets.Query.Columns.{
  are_columns, IsDistinct, compile_query-is_ok, compile_query-columns,
}

abbrev to_text : Json → String
to_text (scalar s) = s
to_text v = ""

abbrev raw_filter : Option Json
raw_filter = some (
    object (
      field "items"
        (array (
          item
            (object (
              field "field" (text "amount") (
                field "operator" (text "GT") (
                  field "value"
                    (object
                      (field "kind" (text "parameter") (field "name" (text "least") empty_object)))
                    empty_object))))
            empty_array))
        empty_object))

abbrev normal_filter : Option Filter
normal_filter = some (record {
  logic = "AND";
  items = condition (record { field = "amount"; operator = "gt"; value = parameter "least" }) ∷ [];
})

abbrev parameters : Dict String
parameters = ("least", "integer") ∷ []

is_normal : normalize_filter to_text raw_filter parameters ≡ ok normal_filter
unfolding normalize_filter normalize_items normalize_filter_item normalize_filter_condition
    normalize_filter_value parameter_value is_operator_compatible get_field lookup strip lstrip
    rstrip lower upper text_dec
is_normal = refl

normalize_filter-IsTyped_example : OfFilter (IsTyped parameters) normal_filter
normalize_filter-IsTyped_example =
    normalize_filter-IsTyped to_text parameters raw_filter normal_filter is_normal

abbrev raw_perimeter : JsonObject
raw_perimeter = field "selected_columns" (array (item (text "amount ") empty_array)) (
    field "sort" (array (item (object (field "field" (text "id") empty_object)) empty_array))
      empty_object)

abbrev perimeter : Perimeter
perimeter = record {
  selected_columns = some ("amount" ∷ []);
  filter = none;
  sort = some (record { field = "id"; direction = "asc" } ∷ []);
}

abbrev columns : List String
columns = "id" ∷ "amount" ∷ []

perimeter_is_normal : normalize_query to_text raw_perimeter [] ≡ ok perimeter
unfolding normalize_query normalize_selected_columns normalize_columns normalize_filter
    normalize_sort normalize_sort_items get_field strip lstrip rstrip lower text_dec
perimeter_is_normal = refl

compile_query-is_ok_example : is_ok (compile_query columns [] none perimeter) ≡ (
    are_columns columns ("amount" ∷ [])
    && (filter_is_resolvable columns [] none && are_columns columns ("id" ∷ [])))
compile_query-is_ok_example =
    compile_query-is_ok to_text [] raw_perimeter perimeter columns [] none perimeter_is_normal

abbrev query : Query
query = record {
  columns = "amount" ∷ [];
  where_clause = none;
  order_by = ("id", false) ∷ [];
  limit = none;
}

compile_query-columns_example :
    IsDistinct ("amount" ∷ [])
    × (are_columns columns ("amount" ∷ []) ≡ true)
    × (("amount" ∷ []) ≡ chosen_columns columns (some ("amount" ∷ [])))
unfolding compile_query check_columns compile_filter compile_sort text_dec
compile_query-columns_example =
    compile_query-columns to_text [] raw_perimeter perimeter columns [] none query
      (refl, (refl, tt)) perimeter_is_normal refl
