-- ===== src/Datasets/Compile/Total.antt =====
-- When the conditions of a filter in normal form can be compiled.
use quality_flow.Base.{
  ◌≡◌, refl, ap, ◌∙◌, Bool, true, false, not, ◌&&◌, ◌||◌, String, ◌<>◌, Option, none, some, List,
  [], ◌∷◌, one_of, text_dec, ◌==◌, inl, inr, Bool-cases, All, if_intro, arith, Result, ok, err,
  is_ok, bind,
}
use quality_flow.Base.Dict.{Dict, lookup}
use quality_flow.Asserts.{Json, null}
use quality_flow.Datasets.Filter.{
  supported_operators, FilterValue, no_value, parameter, literal, Condition, FilterItem, condition,
  group, Filter, normalize_filter,
}
use quality_flow.Datasets.Filter.Typed.{IsTyped, OfItem, OfFilter, normalize_filter-IsTyped}
use quality_flow.Datasets.Compile.{
  Clause, value_of, compared_operators, is_comparable, compile_operator, compile_condition,
  compile_conditions, compile_filter_item, compile_items, compile_filter,
}

-- An operator takes a value: one of a comparison takes neither null nor a Boolean.
abbrev pub takes : String → Json → Bool
takes operator v = not (one_of operator compared_operators) || is_comparable v

-- A reference to a parameter has a value, and the operator takes it.
abbrev pub takes_found : String → Option Json → Bool
takes_found operator none = false
takes_found operator (some v) = takes operator v

abbrev pub has_value : String → FilterValue → Dict Json → Bool
has_value operator (parameter name) resolved = takes_found operator (lookup name resolved)
has_value operator (literal v) resolved = takes operator v
has_value operator no_value resolved = takes operator null

-- The table has the column, and a value that the operator takes is there.
abbrev pub is_resolvable : List String → Dict Json → Condition → Bool
is_resolvable columns resolved c = one_of c.field columns && has_value c.operator c.value resolved

abbrev pub are_resolvable : List String → Dict Json → List Condition → Bool
are_resolvable columns resolved [] = true
are_resolvable columns resolved (c ∷ cs) =
    is_resolvable columns resolved c && are_resolvable columns resolved cs

abbrev pub item_is_resolvable : List String → Dict Json → FilterItem → Bool
item_is_resolvable columns resolved (condition c) = is_resolvable columns resolved c
item_is_resolvable columns resolved (group logic cs) = are_resolvable columns resolved cs

abbrev pub items_are_resolvable : List String → Dict Json → List FilterItem → Bool
items_are_resolvable columns resolved [] = true
items_are_resolvable columns resolved (i ∷ is) =
    item_is_resolvable columns resolved i && items_are_resolvable columns resolved is

abbrev pub filter_is_resolvable : List String → Dict Json → Option Filter → Bool
filter_is_resolvable columns resolved none = true
filter_is_resolvable columns resolved (some f) = items_are_resolvable columns resolved f.items

-- The operators of a comparison are none of the two before them.
not_compared :
    (operator other : String)
    → one_of other compared_operators ≡ false
    → (operator == other) ≡ true
    → one_of operator compared_operators ≡ false
not_compared operator other differ e = ground arith

eq_not_compared : one_of "eq" compared_operators ≡ false
unfolding text_dec
eq_not_compared = refl

neq_not_compared : one_of "neq" compared_operators ≡ false
unfolding text_dec
neq_not_compared = refl

compile_operator-is_ok :
    (operator field : String) (v : Json)
    → one_of operator supported_operators ≡ true
    → is_ok (compile_operator operator field v) ≡ takes operator v
unfolding compile_operator
compile_operator-is_ok operator field v h = elim (Bool-cases (operator == "eq")) [
  | inl eq ↦ ground (arith, not_compared operator "eq" eq_not_compared eq)
  | inr not_eq ↦ elim (Bool-cases (operator == "neq")) [
    | inl neq ↦ ground (arith, not_compared operator "neq" neq_not_compared neq)
    | inr not_neq ↦ ground arith
  ]
]

value_of-is_ok :
    (operator field : String) (v : FilterValue) (resolved : Dict Json)
    → one_of operator supported_operators ≡ true
    → is_ok (bind (value_of v resolved) (compile_operator operator field))
      ≡ has_value operator v resolved
value_of-is_ok operator field no_value resolved h = compile_operator-is_ok operator field null h
value_of-is_ok operator field (literal v) resolved h = compile_operator-is_ok operator field v h
value_of-is_ok operator field (parameter name) resolved h = found (lookup name resolved)
  where
    found :
        (o : Option Json)
        → is_ok (
            bind
              (elim o [
                | some v ↦ ok v
                | none ↦ err ("Resolved dataset parameter '" <> name <> "' is missing.")
              ])
              (compile_operator operator field))
          ≡ takes_found operator o
    found none = refl
    found (some v) = compile_operator-is_ok operator field v h

is_ok-always :
    {A B : Type 0} (r : Result A) (f : A → Result B)
    → ((a : A) → is_ok (f a) ≡ true)
    → is_ok (bind r f) ≡ is_ok r
is_ok-always (ok a) f h = h a
is_ok-always (err e) f h = refl

is_ok-both :
    {A B : Type 0} (r : Result A) (rest : Result (List B)) (f : A → B)
    → is_ok (bind r (λ x. bind rest (λ xs. ok (f x ∷ xs)))) ≡ (is_ok r && is_ok rest)
is_ok-both (ok a) (ok bs) f = refl
is_ok-both (ok a) (err e) f = refl
is_ok-both (err e) rest f = refl

module _ (columns : List String) (resolved : Dict Json) (parameters : Dict String) where
  compile_condition-is_ok :
      (c : Condition)
      → IsTyped parameters c
      → is_ok (compile_condition columns resolved c) ≡ is_resolvable columns resolved c
  unfolding compile_condition
  compile_condition-is_ok c t =
      if_intro {A = Result Clause} (λ r. is_ok r ≡ is_resolvable columns resolved c)
        (one_of c.field columns) _ _
        (λ known. value_of-is_ok c.operator c.field c.value resolved t.supported ∙ ground arith)
        (λ unknown. ground arith)

  compile_conditions-is_ok :
      (cs : List Condition)
      → All (IsTyped parameters) cs
      → is_ok (compile_conditions columns resolved cs) ≡ are_resolvable columns resolved cs
  unfolding compile_conditions
  compile_conditions-is_ok [] h = refl
  compile_conditions-is_ok (c ∷ cs) (h, hs) =
      is_ok-both (compile_condition columns resolved c) (compile_conditions columns resolved cs)
        (λ x. x)
      ∙ ap (λ b. b && is_ok (compile_conditions columns resolved cs)) (compile_condition-is_ok c h)
      ∙ ap (is_resolvable columns resolved c &&◌) (compile_conditions-is_ok cs hs)

  compile_filter_item-is_ok :
      (i : FilterItem)
      → OfItem (IsTyped parameters) i
      → is_ok (compile_filter_item columns resolved i) ≡ item_is_resolvable columns resolved i
  unfolding compile_filter_item
  compile_filter_item-is_ok (condition c) h =
      is_ok-always (compile_condition columns resolved c) _ (λ x. refl)
      ∙ compile_condition-is_ok c h
  compile_filter_item-is_ok (group logic cs) h =
      is_ok-always (compile_conditions columns resolved cs) _ (λ x. refl)
      ∙ compile_conditions-is_ok cs h

  compile_items-is_ok :
      (is : List FilterItem)
      → All (OfItem (IsTyped parameters)) is
      → is_ok (compile_items columns resolved is) ≡ items_are_resolvable columns resolved is
  unfolding compile_items
  compile_items-is_ok [] h = refl
  compile_items-is_ok (i ∷ is) (h, hs) =
      is_ok-both (compile_filter_item columns resolved i) (compile_items columns resolved is)
        (λ x. x)
      ∙ ap (λ b. b && is_ok (compile_items columns resolved is)) (compile_filter_item-is_ok i h)
      ∙ ap (item_is_resolvable columns resolved i &&◌) (compile_items-is_ok is hs)

  -- A filter in normal form is compiled without an error exactly if the table has every column of its
  -- conditions, every parameter that they refer to has a value, and no comparison is given null
  -- or a Boolean: no operator is unsupported.
  pub compile_filter-is_ok :
      (to_text : Json → String) (v : Option Json) (f : Option Filter)
      → normalize_filter to_text v parameters ≡ ok f
      → is_ok (compile_filter columns resolved f) ≡ filter_is_resolvable columns resolved f
  unfolding compile_filter
  compile_filter-is_ok to_text v f h =
      compiled f (normalize_filter-IsTyped to_text parameters v f h)
    where
      compiled :
          (f : Option Filter)
          → OfFilter (IsTyped parameters) f
          → is_ok (compile_filter columns resolved f) ≡ filter_is_resolvable columns resolved f
      compiled none t = refl
      compiled (some g) t =
          is_ok-always (compile_items columns resolved g.items) _ (λ x. refl)
          ∙ compile_items-is_ok g.items t
