-- ===== src/Mocks/Registry.antt =====
-- `MockServerRuntimeRegistry` of
-- app/mock_servers/services/runtime/mock_server_runtime_registry.py. Its lock makes each operation a
-- single step.
pub mod Reach
pub mod Serve
pub mod Threads
use quality_flow.Base.{
  ℕ, suc, Bool, true, false, not, String, ◌<>◌, Option, none, some, List, [], ◌∷◌, ◌++◌,
  if◌then◌else◌, ◌==◌, Result, ok, err,
}
use quality_flow.Base.Text.{is_empty}
use quality_flow.Base.Dict.{Dict, lookup, insert, erase}
use quality_flow.Mocks.Runtime.{MockRuntimeServer, normalize_endpoint}

-- A thread that listens to a queue has a number; `next` is that of the next thread, and `stopped` are
-- those that were told to stop.
pub record Registry : Type 0 where
  pub servers_by_id : Dict MockRuntimeServer
  pub server_ids_by_endpoint : Dict String
  pub queue_threads_by_server_id : Dict (List ℕ)
  pub next : ℕ
  pub stopped : List ℕ

abbrev pub empty_registry : Registry
empty_registry = record {
  servers_by_id = [];
  server_ids_by_endpoint = [];
  queue_threads_by_server_id = [];
  next = 0;
  stopped = [];
}

abbrev pub server_of : Option String → Dict MockRuntimeServer → Option MockRuntimeServer
server_of none servers = none
server_of (some id) servers = if is_empty id then none else lookup id servers

-- `get_server_by_endpoint`
unfoldable pub get_server_by_endpoint : String → Registry → Option MockRuntimeServer
get_server_by_endpoint endpoint r =
    server_of (lookup (normalize_endpoint endpoint) r.server_ids_by_endpoint) r.servers_by_id

abbrev pub is_id : String → Option String → Bool
is_id id none = false
is_id id (some current) = current == id

-- The endpoint of a server that stops, unless another server has taken it.
abbrev pub release_endpoint : String → Option MockRuntimeServer → Dict String → Dict String
release_endpoint id none endpoints = endpoints
release_endpoint id (some server) endpoints =
    if is_id id (lookup (normalize_endpoint server.endpoint) endpoints)
    then erase (normalize_endpoint server.endpoint) endpoints
    else endpoints

abbrev pub threads_of : Option (List ℕ) → List ℕ
threads_of none = []
threads_of (some threads) = threads

-- `_stop_server_locked`
unfoldable pub stop_server_locked : String → Registry → Registry
stop_server_locked id r = record r {
  servers_by_id = erase id r.servers_by_id;
  server_ids_by_endpoint = release_endpoint id (lookup id r.servers_by_id) r.server_ids_by_endpoint;
  queue_threads_by_server_id = erase id r.queue_threads_by_server_id;
  stopped = threads_of (lookup id r.queue_threads_by_server_id) ++ r.stopped;
}

-- The threads of the queues, from a number
abbrev pub new_threads : List String → ℕ → List ℕ
new_threads [] n = []
new_threads (queue ∷ queues) n = n ∷ new_threads queues (suc n)

abbrev pub next_after : List String → ℕ → ℕ
next_after [] n = n
next_after (queue ∷ queues) n = next_after queues (suc n)

-- The part of `start_server` under the lock
unfoldable pub register_server : String → MockRuntimeServer → Registry → Registry
register_server id server r = record r {
  servers_by_id = insert id server r.servers_by_id;
  server_ids_by_endpoint = insert server.endpoint id r.server_ids_by_endpoint;
  queue_threads_by_server_id =
      insert id (new_threads server.queues r.next) r.queue_threads_by_server_id;
  next = next_after server.queues r.next;
}

-- `start_server`, given the server that is loaded, if the table has it
unfoldable pub start_server :
    String → Option MockRuntimeServer → Registry → Result (Unit {0}) × Registry
start_server id none r = (err ("Mock server '" <> id <> "' not found."), r)
start_server id (some server) r = (ok tt, register_server id server (stop_server_locked id r))

-- `stop_server`, as which `remove_server` also acts
unfoldable pub stop_server : String → Registry → Registry
stop_server id r = stop_server_locked id r

-- The loop of `bootstrap_active_servers`, which logs an error and goes on.
unfoldable pub bootstrap_active_servers :
    List (String × Option MockRuntimeServer) → Registry → Registry
unfolding start_server
bootstrap_active_servers [] r = r
bootstrap_active_servers ((id, loaded) ∷ servers) r =
    bootstrap_active_servers servers (start_server id loaded r).1
