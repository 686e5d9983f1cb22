-- ===== src/Mocks/Registry/Reach.antt =====
-- What holds of the registry after any operations.
use quality_flow.Base.{
  ◌≡◌, inl, inr, refl, ap, ◌∙◌, Bool, true, false, ◌&&◌, Bool-cases, String, Option, none, some,
  if◌then◌else◌, ◌==◌, if_intro, arith,
}
use quality_flow.Base.Text.{is_empty}
use quality_flow.Base.Dict.{Dict, lookup, IsDict, insert-IsDict, erase-IsDict, lookup-erase}
use quality_flow.Mocks.Runtime.{MockRuntimeServer, normalize_endpoint}
use quality_flow.Mocks.Registry.{
  Registry, empty_registry, server_of, is_id, release_endpoint, stop_server_locked, register_server,
  start_server, stop_server,
}

-- The loader normalises the endpoint of a server once.
abbrev pub IsLoaded : MockRuntimeServer → Type 0
IsLoaded server = (raw : String) × (server.endpoint ≡ normalize_endpoint raw)

-- The registries that operations reach. A start is of a server that is loaded.
pub data Reachable : Registry → Type 0 where
  empty : Reachable empty_registry
  started :
      {r : Registry} (id : String) (server : MockRuntimeServer)
      → IsLoaded server
      → Reachable r
      → Reachable (start_server id (some server) r).1
  stopped : {r : Registry} (id : String) → Reachable r → Reachable (stop_server id r)

-- Both dicts have each key once.
pub record IsRegistry (r : Registry) : Type 0 where
  pub servers_distinct : IsDict r.servers_by_id
  pub endpoints_distinct : IsDict r.server_ids_by_endpoint

stop-IsRegistry : (r : Registry) (id : String) → IsRegistry r → IsRegistry (stop_server_locked id r)
unfolding stop_server_locked
stop-IsRegistry r id w = record {
  servers_distinct = erase-IsDict id r.servers_by_id w.servers_distinct;
  endpoints_distinct = released (lookup id r.servers_by_id);
}
  where
    released :
        (s : Option MockRuntimeServer) → IsDict (release_endpoint id s r.server_ids_by_endpoint)
    released none = w.endpoints_distinct
    released (some server) =
        if_intro IsDict
          (is_id id (lookup (normalize_endpoint server.endpoint) r.server_ids_by_endpoint)) _ _
          (λ _.
            erase-IsDict (normalize_endpoint server.endpoint) r.server_ids_by_endpoint
              w.endpoints_distinct)
          (λ _. w.endpoints_distinct)

-- After any operations the dicts have each key once.
pub reachable-IsRegistry : (r : Registry) → Reachable r → IsRegistry r
unfolding start_server stop_server register_server
reachable-IsRegistry _ empty = record { servers_distinct = tt; endpoints_distinct = tt }
reachable-IsRegistry _ (started {r} id server loaded before) =
    let w = stop-IsRegistry r id (reachable-IsRegistry r before) in
    record {
      servers_distinct =
          insert-IsDict id server (stop_server_locked id r).servers_by_id w.servers_distinct;
      endpoints_distinct =
          insert-IsDict server.endpoint id (stop_server_locked id r).server_ids_by_endpoint
            w.endpoints_distinct;
    }
reachable-IsRegistry _ (stopped {r} id before) =
    stop-IsRegistry r id (reachable-IsRegistry r before)

-- Whether a server's endpoint, normalised again, is the endpoint.
abbrev pub is_at : String → Option MockRuntimeServer → Bool
is_at endpoint none = false
is_at endpoint (some server) = normalize_endpoint server.endpoint == endpoint

-- A release takes the id out of the endpoint that it normalises again, and leaves all others.
lookup-release :
    (id endpoint : String) (s : Option MockRuntimeServer) (endpoints : Dict String)
    → IsDict endpoints
    → lookup endpoint (release_endpoint id s endpoints) ≡ (
        if is_at endpoint s && is_id id (lookup endpoint endpoints)
        then none
        else lookup endpoint endpoints)
lookup-release id endpoint none endpoints w = refl
lookup-release id endpoint (some server) endpoints w =
    let m = normalize_endpoint server.endpoint in
    elim (Bool-cases (m == endpoint)) [
      | inl same ↦ elim (Bool-cases (is_id id (lookup endpoint endpoints))) [
        | inl own ↦ ground (arith, here same, lookup-erase endpoint m endpoints w)
        | inr other ↦ ground (arith, here same)
      ]
      | inr differ ↦ elim (Bool-cases (is_id id (lookup m endpoints))) [
        | inl own ↦ ground (arith, lookup-erase endpoint m endpoints w)
        | inr other ↦ ground arith
      ]
    ]
  where
    here :
        (normalize_endpoint server.endpoint == endpoint) ≡ true
        → lookup (normalize_endpoint server.endpoint) endpoints ≡ lookup endpoint endpoints
    here same =
        ap (λ k. lookup k endpoints) {x = normalize_endpoint server.endpoint} {y = endpoint}
          (ground arith)

server_of-release :
    (id : String) (at : Bool) (o : Option String) (before after : Dict MockRuntimeServer)
    → ((k : String) → (k == id) ≡ false → lookup k after ≡ lookup k before)
    → server_of (if at && is_id id o then none else o) after ≡ (
        if is_id id o then (if at then none else server_of (some id) after) else server_of o before)
server_of-release id true none before after h = refl
server_of-release id false none before after h = refl
server_of-release id at (some k) before after h = elim (Bool-cases (k == id)) [
  | inl same ↦ own at (ground arith) same
  | inr differ ↦ other at (is_empty k) differ
]
  where
    own :
        (b : Bool)
        → k ≡ id
        → (k == id) ≡ true
        → server_of (if b && (k == id) then none else some k) after ≡ (
            if k == id
            then (if b then none else server_of (some id) after)
            else server_of (some k) before)
    own true e same = rw same refl
    own false e same = rw same (ap (λ j. server_of (some j) after) e)

    other :
        (b blank : Bool)
        → (k == id) ≡ false
        → server_of (if b && (k == id) then none else some k) after ≡ (
            if k == id
            then (if b then none else server_of (some id) after)
            else server_of (some k) before)
    other b blank differ = elim (Bool-cases (is_empty k)) [
      | inl e ↦ ground arith
      | inr e ↦ ground (arith, h k differ)
    ]

-- Which server an endpoint has once the server of an id has stopped, in a dict of servers that agrees
-- on the other ids.
pub stopped_server :
    (r : Registry) (id endpoint : String) (servers : Dict MockRuntimeServer)
    → IsRegistry r
    → ((k : String) → (k == id) ≡ false → lookup k servers ≡ lookup k r.servers_by_id)
    → server_of (lookup endpoint (stop_server_locked id r).server_ids_by_endpoint) servers ≡ (
        if is_id id (lookup endpoint r.server_ids_by_endpoint)
        then (if is_at endpoint (lookup id r.servers_by_id)
            then none
            else server_of (some id) servers)
        else server_of (lookup endpoint r.server_ids_by_endpoint) r.servers_by_id)
unfolding stop_server_locked
stopped_server r id endpoint servers w h =
    ap (λ o. server_of o servers)
      (lookup-release id endpoint (lookup id r.servers_by_id) r.server_ids_by_endpoint
        w.endpoints_distinct)
    ∙ server_of-release id (is_at endpoint (lookup id r.servers_by_id))
        (lookup endpoint r.server_ids_by_endpoint) r.servers_by_id servers h
