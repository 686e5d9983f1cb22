-- ===== src/Datasets/Query/Columns.antt =====
-- When a perimeter in normal form can be compiled, and the columns of the query.
use quality_flow.Base.{
  ℕ, ◌≡◌, refl, sym, ap, subst, ◌∙◌, Bool, true, false, ◌&&◌, ◌||◌, String, Option, none, some,
  List, [], ◌∷◌, ◌++◌, ◌==◌, one_of, if_intro, arith, Result, ok, err, is_ok, bind, bind-eq-ok,
  ok_injective, Ensures, Ensures-bind,
}
use quality_flow.Base.Text.{strip, is_empty}
use quality_flow.Base.Dict.{Dict}
use quality_flow.Asserts.{
  Json, null, scalar, text, array, object, JsonArray, empty_array, item, JsonObject, get_field,
}
use quality_flow.Datasets.Filter.{field_text, normalize_filter}
use quality_flow.Datasets.Compile.{compile_filter}
use quality_flow.Datasets.Compile.Total.{filter_is_resolvable, compile_filter-is_ok}
use quality_flow.Datasets.Query.{
  SortItem, Perimeter, Query, normalize_columns, normalize_selected_columns, normalize_sort,
  normalize_query, check_columns, selection, chosen_columns, compile_sort, sort_items,
  compile_query,
}

abbrev pub are_columns : List String → List String → Bool
are_columns available [] = true
are_columns available (name ∷ names) = one_of name available && are_columns available names

abbrev pub sort_fields : List SortItem → List String
sort_fields [] = []
sort_fields (s ∷ ss) = s.field ∷ sort_fields ss

check_columns-is_ok :
    (available names : List String)
    → is_ok (check_columns available names) ≡ are_columns available names
unfolding check_columns
check_columns-is_ok available [] = refl
check_columns-is_ok available (name ∷ names) = ground (arith, check_columns-is_ok available names)

is_ok-chain :
    {A B : Type 0} (r : Result A) (f : A → Result B) (b : Bool)
    → ((a : A) → is_ok (f a) ≡ b)
    → is_ok (bind r f) ≡ (is_ok r && b)
is_ok-chain (ok a) f b h = h a
is_ok-chain (err e) f b h = refl

compile_sort-is_ok :
    (available : List String) (ss : List SortItem)
    → is_ok (compile_sort available ss) ≡ are_columns available (sort_fields ss)
unfolding compile_sort
compile_sort-is_ok available [] = refl
compile_sort-is_ok available (s ∷ ss) =
    if_intro {A = Result (List (String × Bool))}
      (λ r. is_ok r ≡ (one_of s.field available && are_columns available (sort_fields ss)))
      (one_of s.field available) _ _
      (λ known.
        is_ok-chain (compile_sort available ss) _ true (λ order. refl)
        ∙ ground (arith, compile_sort-is_ok available ss))
      (λ unknown. ground arith)

normalize_query-filter :
    (to_text : Json → String) (parameters : Dict String) (o : JsonObject) (p : Perimeter)
    → normalize_query to_text o parameters ≡ ok p
    → normalize_filter to_text (get_field "filter" o) parameters ≡ ok p.filter
unfolding normalize_query
normalize_query-filter to_text parameters o p h =
    let (selected, _, h1) =
      bind-eq-ok (normalize_selected_columns to_text (get_field "selected_columns" o)) _ h in
    let (filter, e, h2) =
      bind-eq-ok (normalize_filter to_text (get_field "filter" o) parameters) _ h1 in
    let (sort, _, h3) = bind-eq-ok (normalize_sort to_text (get_field "sort" o)) _ h2 in
    e
    ∙ ap (λ q. ok q.filter)
        {x = record { selected_columns = selected; filter = filter; sort = sort }} (ok_injective h3)

-- A perimeter in normal form is compiled without an error exactly if the table has the columns that are
-- selected, those of the filter and those of the order, every parameter that the filter refers to has a
-- value, and no condition with one of the operators gt, gte, lt, lte, contains, starts_with and
-- ends_with has null or a Boolean as value.
pub compile_query-is_ok :
    (to_text : Json → String) (parameters : Dict String) (o : JsonObject) (p : Perimeter)
    (available : List String) (resolved : Dict Json) (limit : Option ℕ)
    → normalize_query to_text o parameters ≡ ok p
    → is_ok (compile_query available resolved limit p) ≡ (
        are_columns available (selection p.selected_columns)
        && (filter_is_resolvable available resolved p.filter
            && are_columns available (sort_fields (sort_items p.sort))))
unfolding compile_query
compile_query-is_ok to_text parameters o p available resolved limit h =
    let filtered =
      compile_filter-is_ok available resolved parameters to_text (get_field "filter" o) p.filter
        (normalize_query-filter to_text parameters o p h) in
    let ordered = compile_sort-is_ok available (sort_items p.sort) in
    is_ok-chain (check_columns available (selection p.selected_columns)) _
      (filter_is_resolvable available resolved p.filter
        && are_columns available (sort_fields (sort_items p.sort)))
      (λ _.
        is_ok-chain (compile_filter available resolved p.filter) _
          (are_columns available (sort_fields (sort_items p.sort)))
          (λ w.
            is_ok-chain (compile_sort available (sort_items p.sort)) _ true (λ order. refl)
            ∙ ground (arith, ordered))
        ∙ ap (λ b. b && are_columns available (sort_fields (sort_items p.sort))) filtered)
    ∙ ap
        (λ b.
          b
          && (filter_is_resolvable available resolved p.filter
              && are_columns available (sort_fields (sort_items p.sort))))
        (check_columns-is_ok available (selection p.selected_columns))

-- No name stands twice.
abbrev pub IsDistinct : List String → Type 0
IsDistinct [] = Unit
IsDistinct (name ∷ names) = (one_of name names ≡ false) × IsDistinct names

one_of-append :
    (n x : String) (names : List String) → one_of n (names ++ (x ∷ [])) ≡ (one_of n names || n == x)
one_of-append n x [] = ground arith
one_of-append n x (m ∷ names) = ground (arith, one_of-append n x names)

append-IsDistinct :
    (names : List String) (x : String)
    → IsDistinct names
    → one_of x names ≡ false
    → IsDistinct (names ++ (x ∷ []))
append-IsDistinct [] x h o = (refl, tt)
append-IsDistinct (n ∷ names) x (h, hs) o =
    (ground (arith, one_of-append n x names), append-IsDistinct names x hs (ground arith))

normalize_columns-IsDistinct :
    (to_text : Json → String) (vs : JsonArray) (selected : List String)
    → IsDistinct selected
    → Ensures IsDistinct (normalize_columns to_text vs selected)
unfolding normalize_columns
normalize_columns-IsDistinct to_text empty_array selected h = h
normalize_columns-IsDistinct to_text (item v vs) selected h =
    let name = strip (field_text to_text (some v)) in
    if_intro (Ensures IsDistinct) (is_empty name) _ _ (λ _. tt)
      (λ _.
        if_intro (Ensures IsDistinct) (one_of name selected) _ _ (λ _. tt)
          (λ new.
            normalize_columns-IsDistinct to_text vs (selected ++ (name ∷ []))
              (append-IsDistinct selected name h new)))

selected-IsDistinct :
    (to_text : Json → String) (v : Option Json)
    → Ensures (λ names. IsDistinct (selection names)) (normalize_selected_columns to_text v)
unfolding normalize_selected_columns
selected-IsDistinct to_text none = tt
selected-IsDistinct to_text (some null) = tt
selected-IsDistinct to_text (some (scalar s)) = tt
selected-IsDistinct to_text (some (text s)) = tt
selected-IsDistinct to_text (some (object o)) = tt
selected-IsDistinct to_text (some (array vs)) =
    Ensures-bind IsDistinct (λ names. IsDistinct (selection names))
      (normalize_columns to_text vs []) (λ names. ok (some names))
      (normalize_columns-IsDistinct to_text vs [] tt) (λ names h. h)

normalize_query-selected :
    (to_text : Json → String) (parameters : Dict String) (o : JsonObject) (p : Perimeter)
    → normalize_query to_text o parameters ≡ ok p
    → IsDistinct (selection p.selected_columns)
unfolding normalize_query
normalize_query-selected to_text parameters o p h =
    let (selected, e, h1) =
      bind-eq-ok (normalize_selected_columns to_text (get_field "selected_columns" o)) _ h in
    let (filter, _, h2) =
      bind-eq-ok (normalize_filter to_text (get_field "filter" o) parameters) _ h1 in
    let (sort, _, h3) = bind-eq-ok (normalize_sort to_text (get_field "sort" o)) _ h2 in
    subst (λ q. IsDistinct (selection q.selected_columns))
      {x = record { selected_columns = selected; filter = filter; sort = sort }} (ok_injective h3)
      (subst (Ensures (λ names. IsDistinct (selection names))) e
        (selected-IsDistinct to_text (get_field "selected_columns" o)))

are_columns-cons :
    (available xs : List String) (x : String)
    → are_columns available xs ≡ true
    → are_columns (x ∷ available) xs ≡ true
are_columns-cons available [] x h = refl
are_columns-cons available (y ∷ ys) x h = ground (arith, are_columns-cons available ys x)

are_columns_self : (available : List String) → are_columns available available ≡ true
are_columns_self [] = refl
are_columns_self (x ∷ xs) = ground (arith, are_columns-cons xs xs x (are_columns_self xs))

-- Where the columns of a table are distinct, a query that is compiled from a perimeter in normal form
-- has distinct columns, all of which are the table's, and those that were selected if any were.
pub compile_query-columns :
    (to_text : Json → String) (parameters : Dict String) (o : JsonObject) (p : Perimeter)
    (available : List String) (resolved : Dict Json) (limit : Option ℕ) (q : Query)
    → IsDistinct available
    → normalize_query to_text o parameters ≡ ok p
    → compile_query available resolved limit p ≡ ok q
    → IsDistinct q.columns
      × (are_columns available q.columns ≡ true)
      × (q.columns ≡ chosen_columns available p.selected_columns)
unfolding compile_query
compile_query-columns to_text parameters o p available resolved limit q d h c =
    let (_, checked, c1) =
      bind-eq-ok (check_columns available (selection p.selected_columns)) _ c in
    let (w, _, c2) = bind-eq-ok (compile_filter available resolved p.filter) _ c1 in
    let (order, _, c3) = bind-eq-ok (compile_sort available (sort_items p.sort)) _ c2 in
    let columns = ap (λ r. r.columns) (sym (ok_injective c3)) in
    (
      subst IsDistinct (sym columns)
          (distinct p.selected_columns (normalize_query-selected to_text parameters o p h)),
      ap (are_columns available) columns
          ∙ known p.selected_columns (
              sym (check_columns-is_ok available (selection p.selected_columns))
              ∙ ap is_ok checked),
      columns,
    )
  where
    distinct :
        (s : Option (List String))
        → IsDistinct (selection s)
        → IsDistinct (chosen_columns available s)
    distinct none h = d
    distinct (some []) h = d
    distinct (some (n ∷ ns)) h = h

    known :
        (s : Option (List String))
        → are_columns available (selection s) ≡ true
        → are_columns available (chosen_columns available s) ≡ true
    known none h = are_columns_self available
    known (some []) h = are_columns_self available
    known (some (n ∷ ns)) h = h
