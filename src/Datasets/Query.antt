-- ===== src/Datasets/Query.antt =====
-- The columns and the order of a query, and the query as a whole: `normalize` after the parameters,
-- and `compile`.
pub mod Columns
use quality_flow.Base.{
  ℕ, suc, Bool, true, false, ◌&&◌, ◌||◌, not, String, ◌<>◌, Option, none, some, List, [], ◌∷◌, ◌++◌,
  if◌then◌else◌, ◌==◌, one_of, is_nil, Result, ok, err, bind,
}
use quality_flow.Base.Text.{strip, lower, or_else, is_empty, decimal}
use quality_flow.Base.Dict.{Dict}
use quality_flow.Asserts.{
  Json, null, array, object, JsonArray, empty_array, item, JsonObject, get_field,
}
use quality_flow.Datasets.Filter.{Filter, field_text, normalize_filter}
use quality_flow.Datasets.Compile.{WhereClause, compile_filter}

pub record SortItem : Type 0 where
  pub field : String
  pub direction : String

pub record Perimeter : Type 0 where
  pub selected_columns : Option (List String)
  pub filter : Option Filter
  pub sort : Option (List SortItem)

-- What `compile` builds: the columns, the condition, the order with its directions, and the limit.
pub record Query : Type 0 where
  pub columns : List String
  pub where_clause : Option WhereClause
  pub order_by : List (String × Bool)
  pub limit : Option ℕ

module _ (to_text : Json → String) where
  -- The loop over the selected columns, with those before
  unfoldable pub normalize_columns : JsonArray → List String → Result (List String)
  normalize_columns empty_array selected = ok selected
  normalize_columns (item v vs) selected =
      let name = strip (field_text to_text (some v)) in
      let rest = normalize_columns vs (selected ++ (name ∷ [])) in
      if is_empty name
      then err "selected_columns items must be non-empty strings."
      else if one_of name selected
      then err ("Duplicate selected column '" <> name <> "'.")
      else rest

  unfoldable pub normalize_selected_columns : Option Json → Result (Option (List String))
  normalize_selected_columns none = ok none
  normalize_selected_columns (some null) = ok none
  normalize_selected_columns (some (array vs)) =
      bind (normalize_columns vs []) (λ names. ok (some names))
  normalize_selected_columns (some v) = err "selected_columns must be an array."

  abbrev sort_item : JsonObject → String → Result SortItem
  sort_item o path =
      let name = strip (field_text to_text (get_field "field" o)) in
      let direction =
        lower (strip (or_else (field_text to_text (get_field "direction" o)) "asc")) in
      if is_empty name
      then err (path <> ".field is required.")
      else if not (direction == "asc" || direction == "desc")
      then err (path <> ".direction must be 'asc' or 'desc'.")
      else ok (record { field = name; direction = direction })

  -- The loop over the order
  unfoldable pub normalize_sort_items : JsonArray → ℕ → Result (List SortItem)
  normalize_sort_items empty_array index = ok []
  normalize_sort_items (item (object o) vs) index =
      let rest = normalize_sort_items vs (suc index) in
      bind (sort_item o ("sort[" <> decimal index <> "]")) (λ s. bind rest (λ ss. ok (s ∷ ss)))
  normalize_sort_items (item v vs) index = err ("sort[" <> decimal index <> "] must be an object.")

  unfoldable pub normalize_sort : Option Json → Result (Option (List SortItem))
  normalize_sort none = ok none
  normalize_sort (some null) = ok none
  normalize_sort (some (array vs)) = bind (normalize_sort_items vs 0) (λ ss. ok (some ss))
  normalize_sort (some v) = err "sort must be an array."

  -- The part of `normalize` after the parameters
  unfoldable pub normalize_query : JsonObject → Dict String → Result Perimeter
  normalize_query o parameters =
      bind (normalize_selected_columns (get_field "selected_columns" o)) (λ selected.
        bind (normalize_filter to_text (get_field "filter" o) parameters) (λ filter.
          bind (normalize_sort (get_field "sort" o))
            (λ sort. ok (record { selected_columns = selected; filter = filter; sort = sort }))))

-- The loop over the selected columns
unfoldable pub check_columns : List String → List String → Result (Unit {0})
check_columns available [] = ok tt
check_columns available (name ∷ names) =
    let rest = check_columns available names in
    if one_of name available then rest else err ("Selected column '" <> name <> "' does not exist.")

abbrev pub selection : Option (List String) → List String
selection none = []
selection (some names) = names

-- An empty selection is all columns.
abbrev pub chosen_columns : List String → Option (List String) → List String
chosen_columns available none = available
chosen_columns available (some []) = available
chosen_columns available (some (name ∷ names)) = name ∷ names

unfoldable pub compile_sort : List String → List SortItem → Result (List (String × Bool))
compile_sort available [] = ok []
compile_sort available (s ∷ ss) =
    let rest = compile_sort available ss in
    if one_of s.field available
    then bind rest (λ order. ok ((s.field, s.direction == "desc") ∷ order))
    else err ("Sort field '" <> s.field <> "' does not exist.")

abbrev pub sort_items : Option (List SortItem) → List SortItem
sort_items none = []
sort_items (some ss) = ss

-- `compile` of a perimeter in normal form
unfoldable pub compile_query : List String → Dict Json → Option ℕ → Perimeter → Result Query
compile_query available resolved limit p =
    let columns = chosen_columns available p.selected_columns in
    bind (check_columns available (selection p.selected_columns)) (λ _.
      bind (compile_filter available resolved p.filter) (λ where_clause.
        bind (compile_sort available (sort_items p.sort)) (λ order. ok (record {
          columns = columns;
          where_clause = where_clause;
          order_by = order;
          limit = limit;
        }))))
