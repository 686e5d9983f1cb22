-- ===== src/Asserts.antt =====
-- The evaluators of asserts on JSON data:
-- app/elaborations/services/asserts/json_data_assert_evaluators.py.
pub mod Multisets
pub mod Compare
mod Tests
use quality_flow.Base.{
  ℕ, suc, Bool, true, false, ◌&&◌, not, String, ◌<>◌, Option, none, some, List, [], ◌∷◌, map, ltb,
  ◌==ℕ◌, if◌then◌else◌, ◌==◌, is_some, is_nil, Result, ok, err, bind,
}
use quality_flow.Base.Dict.{Dict, lookup}
use quality_flow.Base.Text.{is_empty, strip, or_empty}

mutual
  -- A JSON value. `scalar` is a number or a Boolean, by its JSON text.
  pub data Json : Type 0 where
    null : Json
    scalar : String → Json
    text : String → Json
    array : JsonArray → Json
    object : JsonObject → Json

  pub data JsonArray : Type 0 where
    empty_array : JsonArray
    item : Json → JsonArray → JsonArray

  pub data JsonObject : Type 0 where
    empty_object : JsonObject
    field : String → Json → JsonObject → JsonObject

-- `row.get(key)`, with `none` for a missing key
unfoldable pub get_field : String → JsonObject → Option Json
get_field key empty_object = none
get_field key (field k v fields) = if k == key then some v else get_field key fields

-- The loop of `_normalize_rows`; the index in the message is left out.
unfoldable pub normalize_items : String → JsonArray → Result (List JsonObject)
normalize_items label empty_array = ok []
normalize_items label (item (object row) rest) =
    bind (normalize_items label rest) (λ rows. ok (row ∷ rows))
normalize_items label (item _ rest) = err (label <> " item must be a JSON object.")

-- `_normalize_rows`
unfoldable pub normalize_rows : String → Json → Result (List JsonObject)
unfolding normalize_items
normalize_rows label (array items) = normalize_items label items
normalize_rows label _ = err (label <> " must be a JSON array.")

-- `_is_empty_json_value`
unfoldable pub is_empty_json_value : Json → Bool
is_empty_json_value null = true
is_empty_json_value (scalar _) = false
is_empty_json_value (text s) = is_empty s
is_empty_json_value (array empty_array) = true
is_empty_json_value (array (item _ _)) = false
is_empty_json_value (object empty_object) = true
is_empty_json_value (object (field _ _ _)) = false

-- A stored payload.
pub record JsonPayload : Type 0 where
  pub json_type : String
  pub payload : Json

abbrev payload_rows : Json → Result (List JsonObject)
payload_rows (object row) = ok (row ∷ [])
payload_rows v = normalize_rows "Expected json-array payload" v

abbrev expected_value_rows : Json → Result (List JsonObject)
expected_value_rows (object row) = ok (row ∷ [])
expected_value_rows v = normalize_rows "Expected value" v

found_rows : String → Option JsonPayload → Result (List JsonObject)
found_rows id none = err ("Expected json-array '" <> id <> "' not found.")
found_rows id (some p) =
    if strip p.json_type == "json-array"
    then payload_rows p.payload
    else err ("Datasource '" <> id <> "' is not of type 'json-array'.")

-- `_load_expected_json_array_rows`, with the table of payloads as a function
unfoldable pub load_expected_rows :
    (String → Option JsonPayload) → Json → Option String → Result (List JsonObject)
unfolding found_rows
load_expected_rows find null id =
    if is_empty (strip (or_empty id))
    then err "expected_json_array_id is required."
    else found_rows (strip (or_empty id)) (find (strip (or_empty id)))
load_expected_rows find expected id = expected_value_rows expected

-- A tuple of serialized values.
abbrev pub Key : Type 0
Key = List String

unfoldable pub same_key : Key → Key → Bool
same_key [] [] = true
same_key [] (y ∷ ys) = false
same_key (x ∷ xs) [] = false
same_key (x ∷ xs) (y ∷ ys) = x == y && same_key xs ys

-- `Counter`, in insertion order
abbrev pub Multiset : Type 0
Multiset = List (Key × ℕ)

-- `multiset[key]`, 0 for a missing key
unfoldable pub get_count : Key → Multiset → ℕ
get_count k [] = 0
get_count k ((j, n) ∷ m) = if same_key j k then n else get_count k m

-- `multiset[key] += 1`
unfoldable pub add_one : Key → Multiset → Multiset
add_one k [] = (k, 1) ∷ []
add_one k ((j, n) ∷ m) = if same_key j k then (j, suc n) ∷ m else (j, n) ∷ add_one k m

-- `Counter.__eq__`: the counts agree at each key of either.
unfoldable pub counts_agree : Multiset → Multiset → Multiset → Bool
counts_agree a b [] = true
counts_agree a b ((k, n) ∷ m) = get_count k a ==ℕ get_count k b && counts_agree a b m

abbrev pub equal_multisets : Multiset → Multiset → Bool
equal_multisets a b = counts_agree a b a && counts_agree a b b

-- The loop over the items of the actual multiset.
unfoldable pub is_contained : Multiset → Multiset → Bool
is_contained [] expected = true
is_contained ((k, n) ∷ m) expected = not (ltb (get_count k expected) n) && is_contained m expected

abbrev pub has_keys : List String → JsonObject → Bool
has_keys [] row = true
has_keys (key ∷ keys) row = is_some (get_field key row) && has_keys keys row

-- `row.get(key)`, with `None` for a missing key
abbrev pub value_of : Option Json → Json
value_of none = null
value_of (some v) = v

-- What the source takes from elsewhere: `json.dumps`, which writes a value with sorted keys.
module _ (dumps : Json → String) where
  -- The tuple of a row.
  abbrev pub key_of : List String → JsonObject → Key
  key_of compare_keys row = map (λ key. dumps (value_of (get_field key row))) compare_keys

  -- The loop of `_build_multiset`, with the multiset of the rows before.
  unfoldable pub count_rows : List String → String → List JsonObject → Multiset → Result Multiset
  count_rows compare_keys label [] m = ok m
  count_rows compare_keys label (row ∷ rows) m =
      let rest = count_rows compare_keys label rows (add_one (key_of compare_keys row) m) in
      if has_keys compare_keys row then rest else err (label <> " item is missing compare_keys.")

  -- `_build_multiset`
  abbrev pub build_multiset : List String → List JsonObject → String → Result Multiset
  build_multiset compare_keys rows label = count_rows compare_keys label rows []

  -- The two multisets, once there are keys to compare.
  unfoldable pub multisets_of :
      (String → Option JsonPayload)
      → List String
      → Json
      → Json
      → Option String
      → Result (Multiset × Multiset)
  multisets_of find compare_keys actual expected id =
      bind (normalize_rows "Actual data" actual) (λ actual_rows.
        bind (load_expected_rows find expected id) (λ expected_rows.
          bind (build_multiset compare_keys actual_rows "Actual data") (λ a.
            bind (build_multiset compare_keys expected_rows "Expected json-array payload")
              (λ e. ok (a, e)))))

  -- What both evaluators of arrays do first.
  unfoldable pub both_multisets :
      (String → Option JsonPayload)
      → List String
      → Json
      → Json
      → Option String
      → Result (Multiset × Multiset)
  unfolding multisets_of
  both_multisets find compare_keys actual expected id =
      if is_nil compare_keys
      then err "Assert failed: compare_keys is required."
      else multisets_of find compare_keys actual expected id

  -- `JsonArrayContainsDataAssertEvaluator.evaluate`
  unfoldable pub evaluate_array_contains :
      (String → Option JsonPayload) → List String → Json → Json → Option String → Result (Unit {0})
  evaluate_array_contains find compare_keys actual expected id =
      bind (both_multisets find compare_keys actual expected id) (λ (a, e).
        if is_contained a e
        then ok tt
        else err "Assert failed: actual data is not contained in expected json-array.")

  -- `JsonArrayEqualsDataAssertEvaluator.evaluate`
  unfoldable pub evaluate_array_equals :
      (String → Option JsonPayload) → List String → Json → Json → Option String → Result (Unit {0})
  evaluate_array_equals find compare_keys actual expected id =
      bind (both_multisets find compare_keys actual expected id) (λ (a, e).
        if equal_multisets a e
        then ok tt
        else err "Assert failed: actual data is not equal to expected json-array.")

-- `NotEmptyDataAssertEvaluator.evaluate`
unfoldable pub evaluate_not_empty : Json → Result (Unit {0})
evaluate_not_empty actual =
    if is_empty_json_value actual
    then err "Assert failed: expected actual value to be not empty."
    else ok tt

-- `EmptyDataAssertEvaluator.evaluate`
unfoldable pub evaluate_empty : Json → Result (Unit {0})
evaluate_empty actual =
    if not (is_empty_json_value actual)
    then err "Assert failed: expected actual value to be empty."
    else ok tt
