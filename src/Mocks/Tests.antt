-- ===== src/Mocks/Tests.antt =====
-- The theorems on mock servers at one with two routes.
use quality_flow.Base.{
  refl, ◌≡◌, Bool, true, false, String, none, some, List, [], ◌∷◌, if◌then◌else◌, ◌==◌,
}
use quality_flow.Base.Int.{ℤ, pos}
use quality_flow.Base.Text.{strip, lstrip, rstrip, lower}
use quality_flow.Base.Dict.{lookup}
use quality_flow.Asserts.{Json, null, text}
use quality_flow.Mocks.Runtime.{
  MockApiRoute, MockRuntimeServer, normalize_endpoint, lstrip_slash, rstrip_slash, sort_routes,
}
use quality_flow.Mocks.Registry.{
  Registry, empty_registry, is_id, get_server_by_endpoint, start_server, stop_server,
}
use quality_flow.Mocks.Registry.Reach.{Reachable, empty, started, IsLoaded, is_at}
use quality_flow.Mocks.Registry.Serve.{
  get_server_by_endpoint-start_server, get_server_by_endpoint-stop_server,
}
use quality_flow.Mocks.Registry.Threads.{KeepsThreads, reachable-KeepsThreads}
use quality_flow.Mocks.Match.{Request, find_matching_api_route}
use quality_flow.Mocks.Match.First.{Answers, find_matching_api_route-Answers}

abbrev same : Json → Json → Bool
same (text s) (text t) = s == t
same null null = true
same v w = false

abbrev to_text : Json → String
to_text (text s) = s
to_text v = ""

abbrev route : String → ℤ → MockApiRoute
route id priority = record {
  id = id;
  order = pos 0;
  method = "GET";
  path = "/items";
  params = [];
  headers = [];
  body = none;
  body_match = "contains";
  priority = priority;
}

abbrev routes : List MockApiRoute
routes = route "late" (pos 2) ∷ route "early" (pos 1) ∷ []

abbrev server : MockRuntimeServer
server = record { id = "m"; endpoint = "shop"; apis = sort_routes routes; queues = "q" ∷ [] }

abbrev request : Request same to_text
request = record {
  method = "get ";
  path = "items/";
  query_params = [];
  headers = [];
  body_json = none;
  body_raw = "";
}

find_matching_api_route-Answers_example :
    Answers same to_text request routes (find_matching_api_route same to_text server request)
find_matching_api_route-Answers_example =
    find_matching_api_route-Answers same to_text request server routes refl

server-IsLoaded : IsLoaded server
unfolding normalize_endpoint lstrip_slash rstrip_slash strip lstrip rstrip lower
server-IsLoaded = ("/Shop ", refl)

abbrev running : Registry
running = (start_server "m" (some server) empty_registry).1

running-Reachable : Reachable running
running-Reachable = started "m" server server-IsLoaded empty

reachable-KeepsThreads_example : KeepsThreads running
reachable-KeepsThreads_example = reachable-KeepsThreads running running-Reachable

get_server_by_endpoint-stop_server_example :
    get_server_by_endpoint "/shop/" (stop_server "m" running) ≡ (
      if is_id "m" (lookup (normalize_endpoint "/shop/") running.server_ids_by_endpoint)
      then none
      else get_server_by_endpoint "/shop/" running)
get_server_by_endpoint-stop_server_example =
    get_server_by_endpoint-stop_server running "m" "/shop/" running-Reachable

-- The server, once its endpoint is changed.
abbrev moved : MockRuntimeServer
moved = record server { endpoint = "store" }

get_server_by_endpoint-start_server_example :
    get_server_by_endpoint "/shop/" (start_server "m" (some moved) running).1 ≡ (
      if moved.endpoint == normalize_endpoint "/shop/"
      then some moved
      else if is_id "m" (lookup (normalize_endpoint "/shop/") running.server_ids_by_endpoint)
      then (if is_at (normalize_endpoint "/shop/") (lookup "m" running.servers_by_id)
          then none
          else some moved)
      else get_server_by_endpoint "/shop/" running)
get_server_by_endpoint-start_server_example =
    get_server_by_endpoint-start_server running "m" "/shop/" moved running-Reachable refl
