-- ===== src/Mocks/Match.antt =====
-- Which route answers a request: `_find_matching_api_route` of
-- app/mock_servers/services/runtime/mock_runtime_dispatcher.py.
pub mod First
use Prim.Native.Char.{code}
use quality_flow.Base.{
  ℕ, Bool, true, false, ◌&&◌, ◌||◌, not, String, Option, none, some, List, [], ◌∷◌, if◌then◌else◌,
  ◌==◌, ◌==ℕ◌, is_nil,
}
use quality_flow.Base.Text.{strip, lower, upper}
use quality_flow.Base.Dict.{Dict, lookup, insert}
use quality_flow.Asserts.{
  Json, null, scalar, text, array, object, JsonArray, empty_array, item, JsonObject, empty_object,
  field, get_field,
}
use quality_flow.Mocks.Runtime.{MockApiRoute, MockRuntimeServer, normalize_path}

abbrev starts_with : String → String → Bool
starts_with String.[] s = true
starts_with (String.◌∷◌ c t) String.[] = false
starts_with (String.◌∷◌ c t) (String.◌∷◌ d s) = code c ==ℕ code d && starts_with t s

-- `t in s` on texts
unfoldable pub is_part : String → String → Bool
is_part t String.[] = starts_with t String.[]
is_part t (String.◌∷◌ c s) = starts_with t (String.◌∷◌ c s) || is_part t s

abbrev pub found_and : Option Json → (Json → Bool) → Bool
found_and none test = false
found_and (some v) test = test v

abbrev pub any_item : (Json → Bool) → JsonArray → Bool
any_item test empty_array = false
any_item test (item x xs) = test x || any_item test xs

-- Python's `==` on JSON values and `str` of one
module _ (same : Json → Json → Bool) (to_text : Json → String) where
  unfoldable mutual
    -- `_contains`, with the expected value first
    pub contains : Json → Json → Bool
    contains (object fields) (object actual) = contains_fields fields actual
    contains (object fields) actual = false
    contains (array items) (array actual) = contains_items items actual
    contains (array items) actual = false
    contains (text s) (text t) = is_part s t
    contains expected actual = same expected actual

    pub contains_fields : JsonObject → JsonObject → Bool
    contains_fields empty_object actual = true
    contains_fields (field k v fields) actual =
        found_and (get_field k actual) (contains v) && contains_fields fields actual

    pub contains_items : JsonArray → JsonArray → Bool
    contains_items empty_array actual = true
    contains_items (item x xs) actual = any_item (contains x) actual && contains_items xs actual

  -- The keys of a map in lower case; a later entry of a key counts.
  unfoldable pub lower_keys : Dict String → Dict String → Dict String
  lower_keys [] result = result
  lower_keys ((k, v) ∷ entries) result = lower_keys entries (insert (lower (strip k)) v result)

  abbrev lookup_key : Bool → String → String
  lookup_key normalize_keys k = if normalize_keys then lower (strip k) else k

  abbrev equals_text : Option String → Json → Bool
  equals_text none expected = false
  equals_text (some actual) expected = actual == to_text expected

  unfoldable pub entries_match : Dict Json → Dict String → Bool → Bool
  entries_match [] source normalize_keys = true
  entries_match ((k, expected) ∷ entries) source normalize_keys =
      equals_text (lookup (lookup_key normalize_keys k) source) expected
      && entries_match entries source normalize_keys

  -- `_map_matches`
  unfoldable pub map_matches : Dict Json → Dict String → Bool → Bool
  map_matches expected actual normalize_keys =
      is_nil expected
      || entries_match expected (if normalize_keys then lower_keys actual [] else actual)
          normalize_keys

  abbrev is_any : Json → Bool
  is_any (text s) = upper (strip s) == "ANY"
  is_any v = false

  abbrev body_or_raw : Option Json → String → Json
  body_or_raw none body_raw = text body_raw
  body_or_raw (some v) body_raw = v

  abbrev expected_matches : Option Json → String → Json → Bool
  expected_matches none body_match actual = true
  expected_matches (some expected) body_match actual =
      is_any expected
      || (if body_match == "equals" then same expected actual else contains expected actual)

  -- `_body_matches`
  unfoldable pub body_matches : MockApiRoute → Option Json → String → Bool
  body_matches route body_json body_raw =
      expected_matches route.body route.body_match (body_or_raw body_json body_raw)

  -- A request, as the dispatcher is given it.
  pub record Request : Type 0 where
    pub method : String
    pub path : String
    pub query_params : Dict String
    pub headers : Dict String
    pub body_json : Option Json
    pub body_raw : String

  -- `_to_lowercase_headers`
  unfoldable pub to_lowercase_headers : Dict String → Dict String
  to_lowercase_headers headers = lower_keys headers []

  -- The tests of one route, with `continue` where one fails
  unfoldable pub route_matches : Request → MockApiRoute → Bool
  route_matches q route =
      if not (route.method == upper (strip q.method))
      then false
      else if not (route.path == normalize_path q.path)
      then false
      else if not (map_matches route.params q.query_params false)
      then false
      else if not (map_matches route.headers (to_lowercase_headers q.headers) true)
      then false
      else if not (body_matches route q.body_json q.body_raw)
      then false
      else true

  -- The loop over the routes.
  unfoldable pub find_route : Request → List MockApiRoute → Option MockApiRoute
  find_route q [] = none
  find_route q (route ∷ routes) = if route_matches q route then some route else find_route q routes

  -- `_find_matching_api_route`
  unfoldable pub find_matching_api_route : MockRuntimeServer → Request → Option MockApiRoute
  find_matching_api_route server q = find_route q server.apis
