-- ===== src/Mocks/Runtime.antt =====
-- The servers and routes of app/mock_servers/models/runtime_models.py, and the order of the routes in
-- which app/mock_servers/services/runtime/mock_runtime_loader.py loads them.
use quality_flow.Base.{Bool, false, ◌&&◌, ◌||◌, String, ◌<>◌, List, [], ◌∷◌, if◌then◌else◌, Option}
use quality_flow.Base.Int.{ℤ, ltb_ℤ, ◌==ℤ◌}
use quality_flow.Base.Text.{strip, lower, is_empty, text_ltb, is_slash}
use quality_flow.Base.Dict.{Dict}
use quality_flow.Asserts.{Json}

-- `body` is absent for `None`.
pub record MockApiRoute : Type 0 where
  pub id : String
  pub order : ℤ
  pub method : String
  pub path : String
  pub params : Dict Json
  pub headers : Dict Json
  pub body : Option Json
  pub body_match : String
  pub priority : ℤ

pub record MockRuntimeServer : Type 0 where
  pub id : String
  pub endpoint : String
  pub apis : List MockApiRoute
  pub queues : List String

unfoldable pub lstrip_slash : String → String
lstrip_slash String.[] = String.[]
lstrip_slash (String.◌∷◌ c s) =
    let rest = lstrip_slash s in if is_slash c then rest else String.◌∷◌ c s

unfoldable pub rstrip_slash : String → String
rstrip_slash String.[] = String.[]
rstrip_slash (String.◌∷◌ c s) =
    let rest = rstrip_slash s in
    if is_slash c && is_empty rest then String.[] else String.◌∷◌ c rest

-- `_normalize_endpoint`
unfoldable pub normalize_endpoint : String → String
unfolding lstrip_slash rstrip_slash
normalize_endpoint endpoint = lower (rstrip_slash (lstrip_slash (strip endpoint)))

abbrev starts_with_slash : String → Bool
starts_with_slash String.[] = false
starts_with_slash (String.◌∷◌ c s) = is_slash c

abbrev with_slash : String → String
with_slash raw = if starts_with_slash raw then raw else "/" <> raw

-- `if len(raw) > 1: raw = raw.rstrip("/")`
abbrev trim_end : String → String
trim_end String.[] = String.[]
trim_end (String.◌∷◌ c s) = if is_empty s then String.◌∷◌ c s else rstrip_slash (String.◌∷◌ c s)

-- `_normalize_path`
unfoldable pub normalize_path : String → String
unfolding rstrip_slash
normalize_path path = if is_empty (strip path) then "/" else trim_end (with_slash (strip path))

-- The key of the sort is the priority, then the order, then the id.
abbrev pub route_precedes : MockApiRoute → MockApiRoute → Bool
route_precedes a b =
    ltb_ℤ a.priority b.priority
    || (a.priority ==ℤ b.priority
        && (ltb_ℤ a.order b.order || (a.order ==ℤ b.order && text_ltb a.id b.id)))

unfoldable pub insert_route : MockApiRoute → List MockApiRoute → List MockApiRoute
insert_route r [] = r ∷ []
insert_route r (q ∷ qs) = if route_precedes q r then q ∷ insert_route r qs else r ∷ q ∷ qs

-- `api_routes.sort(…)`
unfoldable pub sort_routes : List MockApiRoute → List MockApiRoute
sort_routes [] = []
sort_routes (r ∷ rs) = insert_route r (sort_routes rs)
