-- ===== src/Datasets/Filter/Typed.antt =====
-- What the normal form of a filter ensures of its conditions.
use quality_flow.Base.{
  ℕ, suc, ◌≡◌, refl, subst, true, false, ◌&&◌, not, String, ◌<>◌, Option, none, some, List, [], ◌∷◌,
  ◌==◌, one_of, All, if_intro, arith, Result, ok, err, bind, Ensures, Ensures-bind,
}
use quality_flow.Base.Text.{strip, lower, or_else, is_empty, decimal}
use quality_flow.Base.Dict.{Dict, lookup}
use quality_flow.Asserts.{
  Json, null, scalar, text, array, object, JsonArray, empty_array, item, JsonObject, get_field,
}
use quality_flow.Datasets.Filter.{
  string_operators, set_operators, null_operators, supported_operators, is_operator_compatible,
  FilterValue, no_value, parameter, literal, Condition, FilterItem, condition, group, Filter,
  is_list, is_text, literal_value, parameter_value, field_text, is_parameter,
  normalize_filter_value, required_value, condition_value, normalize_filter_condition,
  normalize_conditions, list_or_empty, logic_text, is_logic, group_of, normalize_group,
  normalize_filter_item, normalize_items, one_group, legacy_items, filter_items, filter_of,
  normalize_filter,
}

-- A value fits an operator: a test for null has none, a parameter is declared with a type that the
-- operator takes, a set is a list that is not empty, and a part of a text is a text.
pub data ValueFits (parameters : Dict String) (operator : String) : FilterValue → Type 0 where
  null_test : one_of operator null_operators ≡ true → ValueFits parameters operator no_value
  declared :
      {name : String} (type : String)
      → lookup name parameters ≡ some type
      → one_of operator set_operators ≡ false
      → is_operator_compatible type operator ≡ true
      → ValueFits parameters operator (parameter name)
  plain :
      {v : Json}
      → (one_of operator set_operators ≡ true → is_list v ≡ true)
      → (one_of operator string_operators ≡ true → is_text v ≡ true)
      → ValueFits parameters operator (literal v)

pub record IsTyped (parameters : Dict String) (c : Condition) : Type 0 where
  pub named : is_empty c.field ≡ false
  pub supported : one_of c.operator supported_operators ≡ true
  pub fits : ValueFits parameters c.operator c.value

-- A predicate holds of all conditions of an item.
abbrev pub OfItem : (Condition → Type 0) → FilterItem → Type 0
OfItem P (condition c) = P c
OfItem P (group logic cs) = All P cs

abbrev pub OfFilter : (Condition → Type 0) → Option Filter → Type 0
OfFilter P none = Unit
OfFilter P (some f) = All (OfItem P) f.items

module _ (to_text : Json → String) (parameters : Dict String) where
  literal_value-ValueFits :
      (path operator : String) (v : Json)
      → Ensures (ValueFits parameters operator) (literal_value path operator v)
  unfolding literal_value
  literal_value-ValueFits path operator v =
      if_intro (Ensures (ValueFits parameters operator))
        (one_of operator set_operators && not (is_list v)) _ _ (λ _. tt)
        (λ set.
          if_intro (Ensures (ValueFits parameters operator))
            (one_of operator string_operators && not (is_text v)) _ _ (λ _. tt)
            (λ part. plain (λ e. ground arith) (λ e. ground arith)))

  parameter_value-ValueFits :
      (path operator name : String) (found : Option String)
      → lookup name parameters ≡ found
      → Ensures (ValueFits parameters operator) (parameter_value path operator name found)
  unfolding parameter_value
  parameter_value-ValueFits path operator name none e = tt
  parameter_value-ValueFits path operator name (some type) e =
      if_intro (Ensures (ValueFits parameters operator)) (one_of operator set_operators) _ _
        (λ _. tt)
        (λ single.
          if_intro (Ensures (ValueFits parameters operator))
            (not (is_operator_compatible type operator)) _ _ (λ _. tt)
            (λ fits. declared type e single (ground arith)))

  normalize_filter_value-ValueFits :
      (path operator : String) (v : Json)
      → Ensures
          (ValueFits parameters operator)
          (normalize_filter_value to_text path operator parameters v)
  unfolding normalize_filter_value
  normalize_filter_value-ValueFits path operator (object o) =
      if_intro (Ensures (ValueFits parameters operator)) (is_parameter to_text o) _ _
        (λ _.
          if_intro (Ensures (ValueFits parameters operator))
            (is_empty (strip (field_text to_text (get_field "name" o)))) _ _ (λ _. tt)
            (λ _.
              parameter_value-ValueFits path operator
                (strip (field_text to_text (get_field "name" o))) _ refl))
        (λ _. literal_value-ValueFits path operator (object o))
  normalize_filter_value-ValueFits path operator null = literal_value-ValueFits path operator null
  normalize_filter_value-ValueFits path operator (scalar s) =
      literal_value-ValueFits path operator (scalar s)
  normalize_filter_value-ValueFits path operator (text s) =
      literal_value-ValueFits path operator (text s)
  normalize_filter_value-ValueFits path operator (array vs) =
      literal_value-ValueFits path operator (array vs)

  condition_value-ValueFits :
      (path operator : String) (v : Option Json)
      → Ensures (ValueFits parameters operator) (condition_value to_text path operator parameters v)
  condition_value-ValueFits path operator v =
      if_intro (Ensures (ValueFits parameters operator)) (one_of operator null_operators) _ _
        null_test (λ _. required v)
    where
      required :
          (v : Option Json)
          → Ensures
              (ValueFits parameters operator)
              (required_value to_text path operator parameters v)
      required none = tt
      required (some v) = normalize_filter_value-ValueFits (path <> ".value") operator v

  normalize_filter_condition-IsTyped :
      (v : Json) (path : String)
      → Ensures (IsTyped parameters) (normalize_filter_condition to_text v path parameters)
  unfolding normalize_filter_condition
  normalize_filter_condition-IsTyped (object o) path =
      let name = strip (field_text to_text (get_field "field" o)) in
      let op = lower (strip (field_text to_text (get_field "operator" o))) in
      if_intro (Ensures (IsTyped parameters)) (is_empty name) _ _ (λ _. tt)
        (λ named.
          if_intro (Ensures (IsTyped parameters)) (not (one_of op supported_operators)) _ _
            (λ _. tt)
            (λ supported.
              Ensures-bind (ValueFits parameters op) (IsTyped parameters) _ _
                (condition_value-ValueFits path op (get_field "value" o))
                (λ value fits. record { named = named; supported = ground arith; fits = fits })))
  normalize_filter_condition-IsTyped null path = tt
  normalize_filter_condition-IsTyped (scalar s) path = tt
  normalize_filter_condition-IsTyped (text s) path = tt
  normalize_filter_condition-IsTyped (array vs) path = tt

  normalize_conditions-IsTyped :
      (vs : JsonArray) (path : String) (index : ℕ)
      → Ensures (All (IsTyped parameters)) (normalize_conditions to_text vs path index parameters)
  unfolding normalize_conditions
  normalize_conditions-IsTyped empty_array path index = tt
  normalize_conditions-IsTyped (item v vs) path index =
      let rest = normalize_conditions-IsTyped vs path (suc index) in
      Ensures-bind (IsTyped parameters) (All (IsTyped parameters)) _ _
        (normalize_filter_condition-IsTyped v (path <> "[" <> decimal index <> "]"))
        (λ c h.
          Ensures-bind (All (IsTyped parameters)) (All (IsTyped parameters)) _ _ rest
            (λ cs hs. (h, hs)))

  normalize_group-IsTyped :
      (o : JsonObject) (path : String)
      → Ensures (OfItem (IsTyped parameters)) (normalize_group to_text o path parameters)
  unfolding normalize_group
  normalize_group-IsTyped o path =
      if_intro (Ensures (OfItem (IsTyped parameters))) (not (is_logic (logic_text to_text o))) _ _
        (λ _. tt)
        (λ _.
          Ensures-bind (λ _. Unit {0}) (OfItem (IsTyped parameters)) _ _ (anything _)
            (λ vs _.
              Ensures-bind (All (IsTyped parameters)) (OfItem (IsTyped parameters)) _ _
                (normalize_conditions-IsTyped vs (path <> ".conditions") 0) grouped))
    where
      anything : {A : Type 0} (r : Result A) → Ensures (λ _. Unit {0}) r
      anything (ok a) = tt
      anything (err e) = tt

      grouped :
          (cs : List Condition)
          → All (IsTyped parameters) cs
          → Ensures (OfItem (IsTyped parameters)) (group_of path (logic_text to_text o) cs)
      grouped [] h = tt
      grouped (c ∷ cs) h = h

  normalize_filter_item-IsTyped :
      (v : Json) (path : String)
      → Ensures (OfItem (IsTyped parameters)) (normalize_filter_item to_text v path parameters)
  unfolding normalize_filter_item
  normalize_filter_item-IsTyped (object o) path =
      let kind = lower (strip (or_else (field_text to_text (get_field "kind" o)) "condition")) in
      if_intro (Ensures (OfItem (IsTyped parameters))) (kind == "group") _ _
        (λ _. normalize_group-IsTyped o path)
        (λ _.
          if_intro (Ensures (OfItem (IsTyped parameters))) (not (kind == "condition")) _ _ (λ _. tt)
            (λ _.
              Ensures-bind (IsTyped parameters) (OfItem (IsTyped parameters)) _ _
                (normalize_filter_condition-IsTyped (object o) path) (λ c h. h)))
  normalize_filter_item-IsTyped null path = tt
  normalize_filter_item-IsTyped (scalar s) path = tt
  normalize_filter_item-IsTyped (text s) path = tt
  normalize_filter_item-IsTyped (array vs) path = tt

  normalize_items-IsTyped :
      (vs : JsonArray) (path : String) (index : ℕ)
      → Ensures
          (All (OfItem (IsTyped parameters)))
          (normalize_items to_text vs path index parameters)
  unfolding normalize_items
  normalize_items-IsTyped empty_array path index = tt
  normalize_items-IsTyped (item v vs) path index =
      let rest = normalize_items-IsTyped vs path (suc index) in
      Ensures-bind (OfItem (IsTyped parameters)) (All (OfItem (IsTyped parameters))) _ _
        (normalize_filter_item-IsTyped v (path <> "[" <> decimal index <> "]"))
        (λ i h.
          Ensures-bind (All (OfItem (IsTyped parameters))) (All (OfItem (IsTyped parameters))) _ _
            rest (λ is hs. (h, hs)))

  anything : {A : Type 0} (r : Result A) → Ensures (λ _. Unit {0}) r
  anything (ok a) = tt
  anything (err e) = tt

  legacy_items-IsTyped :
      (o : JsonObject) (logic : String)
      → Ensures (All (OfItem (IsTyped parameters))) (legacy_items to_text o logic parameters)
  legacy_items-IsTyped o logic =
      Ensures-bind (λ _. Unit {0}) (All (OfItem (IsTyped parameters)))
        (list_or_empty to_text (get_field "conditions" o) "filter.conditions")
        (λ vs.
          bind (normalize_conditions to_text vs "filter.conditions" 0 parameters)
            (λ cs. ok (one_group logic cs)))
        (anything (list_or_empty to_text (get_field "conditions" o) "filter.conditions"))
        (λ vs _.
          Ensures-bind (All (IsTyped parameters)) (All (OfItem (IsTyped parameters)))
            (normalize_conditions to_text vs "filter.conditions" 0 parameters)
            (λ cs. ok (one_group logic cs)) (normalize_conditions-IsTyped vs "filter.conditions" 0)
            grouped)
    where
      grouped :
          (cs : List Condition)
          → All (IsTyped parameters) cs
          → All (OfItem (IsTyped parameters)) (one_group logic cs)
      grouped [] h = tt
      grouped (c ∷ cs) h = (h, tt)

  listed_items-IsTyped :
      (v : Json)
      → Ensures (All (OfItem (IsTyped parameters))) (
          bind
            (list_or_empty to_text (some v) "filter.items")
            (λ vs. normalize_items to_text vs "filter.items" 0 parameters))
  listed_items-IsTyped v =
      Ensures-bind (λ _. Unit {0}) (All (OfItem (IsTyped parameters))) _ _ (anything _)
        (λ vs _. normalize_items-IsTyped vs "filter.items" 0)

  filter_items-IsTyped :
      (o : JsonObject) (items : Option Json) (logic : String)
      → Ensures (All (OfItem (IsTyped parameters))) (filter_items to_text o items logic parameters)
  filter_items-IsTyped o none logic = legacy_items-IsTyped o logic
  filter_items-IsTyped o (some null) logic = legacy_items-IsTyped o logic
  filter_items-IsTyped o (some (scalar s)) logic = listed_items-IsTyped (scalar s)
  filter_items-IsTyped o (some (text s)) logic = listed_items-IsTyped (text s)
  filter_items-IsTyped o (some (array vs)) logic = listed_items-IsTyped (array vs)
  filter_items-IsTyped o (some (object f)) logic = listed_items-IsTyped (object f)

  normalized-IsTyped :
      (v : Option Json)
      → Ensures (OfFilter (IsTyped parameters)) (normalize_filter to_text v parameters)
  unfolding normalize_filter
  normalized-IsTyped none = tt
  normalized-IsTyped (some null) = tt
  normalized-IsTyped (some (scalar s)) = tt
  normalized-IsTyped (some (text s)) = tt
  normalized-IsTyped (some (array vs)) = tt
  normalized-IsTyped (some (object o)) =
      if_intro (Ensures (OfFilter (IsTyped parameters))) (not (is_logic (logic_text to_text o))) _ _
        (λ _. tt)
        (λ _.
          Ensures-bind (All (OfItem (IsTyped parameters))) (OfFilter (IsTyped parameters)) _ _
            (filter_items-IsTyped o (get_field "items" o) (logic_text to_text o)) found)
    where
      found :
          (is : List FilterItem)
          → All (OfItem (IsTyped parameters)) is
          → OfFilter (IsTyped parameters) (filter_of (logic_text to_text o) is)
      found [] h = tt
      found (i ∷ is) h = h

  -- Every condition of a filter in normal form has a field, an operator that is supported, and a value
  -- that fits it: a reference is to a declared parameter, of a type that the operator takes, sets are
  -- lists that are not empty, and parts of texts are texts.
  pub normalize_filter-IsTyped :
      (v : Option Json) (f : Option Filter)
      → normalize_filter to_text v parameters ≡ ok f
      → OfFilter (IsTyped parameters) f
  normalize_filter-IsTyped v f h =
      subst (Ensures (OfFilter (IsTyped parameters))) h (normalized-IsTyped v)
