-- ===== src/Mocks/Registry/Serve.antt =====
-- Which server an endpoint has after a start and after a stop.
use quality_flow.Base.{
  ◌≡◌, refl, ap, ◌∙◌, Bool, true, false, String, none, some, if◌then◌else◌, ◌==◌, if_intro, arith,
}
use quality_flow.Base.Text.{is_empty}
use quality_flow.Base.Dict.{
  lookup, erase, lookup-insert, lookup-insert_self, lookup-erase_ne, lookup-erase_self,
}
use quality_flow.Mocks.Runtime.{MockRuntimeServer, normalize_endpoint}
use quality_flow.Mocks.Registry.{
  Registry, get_server_by_endpoint, server_of, is_id, stop_server_locked, register_server,
  start_server, stop_server,
}
use quality_flow.Mocks.Registry.Reach.{Reachable, reachable-IsRegistry, is_at, stopped_server}

-- After any operations and the stop of a server, an endpoint that had this server has none, and every
-- other endpoint has what it had.
pub get_server_by_endpoint-stop_server :
    (r : Registry) (id endpoint : String)
    → Reachable r
    → get_server_by_endpoint endpoint (stop_server id r) ≡ (
        if is_id id (lookup (normalize_endpoint endpoint) r.server_ids_by_endpoint)
        then none
        else get_server_by_endpoint endpoint r)
unfolding get_server_by_endpoint stop_server stop_server_locked
get_server_by_endpoint-stop_server r id endpoint reached =
    let w = reachable-IsRegistry r reached in
    let n = normalize_endpoint endpoint in
    stopped_server r id n (erase id r.servers_by_id) w
      (λ k differ. lookup-erase_ne k id r.servers_by_id (ground arith))
    ∙ ap
        (λ o.
          if is_id id (lookup n r.server_ids_by_endpoint)
          then o
          else server_of (lookup n r.server_ids_by_endpoint) r.servers_by_id)
        (gone (is_at n (lookup id r.servers_by_id)) (is_empty id)
          (lookup-erase_self id r.servers_by_id w.servers_distinct))
  where
    gone :
        (at blank : Bool)
        → lookup id (erase id r.servers_by_id) ≡ none
        → (if at then none else if blank then none else lookup id (erase id r.servers_by_id)) ≡ none
    gone true blank e = refl
    gone false true e = refl
    gone false false e = e

-- After any operations and the start of a server that is loaded, whose id is not empty, its endpoint
-- has it; any other endpoint that the id had before has none if it is the endpoint of the id's former
-- server, normalised again, and has the new server if it is not; and every other endpoint has what it
-- had.
pub get_server_by_endpoint-start_server :
    (r : Registry) (id endpoint : String) (server : MockRuntimeServer)
    → Reachable r
    → is_empty id ≡ false
    → get_server_by_endpoint endpoint (start_server id (some server) r).1 ≡ (
        if server.endpoint == normalize_endpoint endpoint
        then some server
        else if is_id id (lookup (normalize_endpoint endpoint) r.server_ids_by_endpoint)
        then (if is_at (normalize_endpoint endpoint) (lookup id r.servers_by_id)
            then none
            else some server)
        else get_server_by_endpoint endpoint r)
unfolding get_server_by_endpoint start_server register_server stop_server_locked
get_server_by_endpoint-start_server r id endpoint server reached named =
    ap (λ o. server_of o started.servers_by_id)
      (lookup-insert n server.endpoint id (stop_server_locked id r).server_ids_by_endpoint)
    ∙ if_intro
        (λ b.
          server_of
            (if server.endpoint == n
              then some id
              else lookup n (stop_server_locked id r).server_ids_by_endpoint)
            started.servers_by_id
          ≡ b)
        (server.endpoint == n) _ _ (λ here. rw here own)
        (λ elsewhere. rw elsewhere (
          stopped_server r id n started.servers_by_id (reachable-IsRegistry r reached) agree
          ∙ ap
              (λ o.
                if is_id id (lookup n r.server_ids_by_endpoint)
                then (if is_at n (lookup id r.servers_by_id) then none else o)
                else server_of (lookup n r.server_ids_by_endpoint) r.servers_by_id)
              own))
  where
    n : String
    n = normalize_endpoint endpoint

    started : Registry
    started = register_server id server (stop_server_locked id r)

    own : server_of (some id) started.servers_by_id ≡ some server
    own = rw named (lookup-insert_self id server (stop_server_locked id r).servers_by_id)

    agree :
        (k : String) → (k == id) ≡ false → lookup k started.servers_by_id ≡ lookup k r.servers_by_id
    agree k differ =
        lookup-insert k id server (stop_server_locked id r).servers_by_id
        ∙ if_intro (λ o. o ≡ lookup k r.servers_by_id) (id == k) _ _ (λ same. ground arith)
            (λ _. lookup-erase_ne k id r.servers_by_id (ground arith))
