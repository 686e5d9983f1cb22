-- ===== src/Mocks/Registry/Threads.antt =====
-- No listener of a queue is lost: the registry holds it until it is stopped.
use quality_flow.Base.{
  ℕ, suc, ◌<◌, ◌≤◌, ◌≡◌, refl, Bool, true, false, ◌||◌, Bool-cases, inl, inr, String, none, List,
  [], ◌∷◌, ◌++◌, ◌==◌, ◌==ℕ◌, ltb, arith,
}
use quality_flow.Base.Dict.{
  Dict, lookup, insert, erase, IsDict, insert-IsDict, erase-IsDict, lookup-erase_self,
}
use quality_flow.Mocks.Runtime.{MockRuntimeServer}
use quality_flow.Mocks.Registry.{
  Registry, threads_of, new_threads, next_after, stop_server_locked, register_server, start_server,
  stop_server,
}
use quality_flow.Mocks.Registry.Reach.{Reachable, empty, started, stopped}

abbrev pub has_thread : ℕ → List ℕ → Bool
has_thread n [] = false
has_thread n (m ∷ ms) = m ==ℕ n || has_thread n ms

-- Whether a server of the dict has the thread.
abbrev pub is_held : ℕ → Dict (List ℕ) → Bool
is_held n [] = false
is_held n ((id, threads) ∷ d) = has_thread n threads || is_held n d

-- A thread that was started is held or stopped.
pub record KeepsThreads (r : Registry) : Type 0 where
  pub distinct : IsDict r.queue_threads_by_server_id
  pub kept :
      (n : ℕ)
      → n < r.next
      → (is_held n r.queue_threads_by_server_id || has_thread n r.stopped) ≡ true

has_thread-append :
    (n : ℕ) (xs ys : List ℕ) → has_thread n (xs ++ ys) ≡ (has_thread n xs || has_thread n ys)
has_thread-append n [] ys = refl
has_thread-append n (x ∷ xs) ys = ground (arith, has_thread-append n xs ys)

is_held-erase :
    (n : ℕ) (id : String) (d : Dict (List ℕ))
    → is_held n d ≡ (has_thread n (threads_of (lookup id d)) || is_held n (erase id d))
unfolding lookup erase
is_held-erase n id [] = refl
is_held-erase n id ((k, threads) ∷ d) = elim (Bool-cases (k == id)) [
  | inl same ↦ rw same refl
  | inr differ ↦ rw differ (ground (arith, is_held-erase n id d))
]

is_held-insert :
    (n : ℕ) (id : String) (threads : List ℕ) (d : Dict (List ℕ))
    → lookup id d ≡ none
    → is_held n (insert id threads d) ≡ (is_held n d || has_thread n threads)
unfolding lookup insert
is_held-insert n id threads [] h = ground arith
is_held-insert n id threads ((k, others) ∷ d) h = elim (Bool-cases (k == id)) [
  | inl same ↦ ground arith
  | inr differ ↦ rw differ (ground (arith, is_held-insert n id threads d (ground arith)))
]

-- The new threads are those of the numbers in between.
new_threads-has_thread :
    (n first : ℕ) (queues : List String)
    → first ≤ n
    → n < next_after queues first
    → has_thread n (new_threads queues first) ≡ true
new_threads-has_thread n first [] low high = ground arith
new_threads-has_thread n first (queue ∷ queues) low high = elim (Bool-cases (first ==ℕ n)) [
  | inl same ↦ ground arith
  | inr differ ↦ ground (arith, new_threads-has_thread n (suc first) queues (ground arith) high)
]

stop-KeepsThreads :
    (r : Registry) (id : String) → KeepsThreads r → KeepsThreads (stop_server_locked id r)
unfolding stop_server_locked
stop-KeepsThreads r id w = record {
  distinct = erase-IsDict id r.queue_threads_by_server_id w.distinct;
  kept = λ n before. ground (
    arith,
    w.kept n before,
    is_held-erase n id r.queue_threads_by_server_id,
    has_thread-append n (threads_of (lookup id r.queue_threads_by_server_id)) r.stopped,
  );
}

threads_gone :
    (id : String) (r : Registry)
    → KeepsThreads r
    → lookup id (stop_server_locked id r).queue_threads_by_server_id ≡ none
unfolding stop_server_locked
threads_gone id r w = lookup-erase_self id r.queue_threads_by_server_id w.distinct

register-KeepsThreads :
    (r : Registry) (id : String) (server : MockRuntimeServer)
    → lookup id r.queue_threads_by_server_id ≡ none
    → KeepsThreads r
    → KeepsThreads (register_server id server r)
unfolding register_server
register-KeepsThreads r id server gone w = record {
  distinct =
      insert-IsDict id (new_threads server.queues r.next) r.queue_threads_by_server_id w.distinct;
  kept = λ n before. elim (Bool-cases (ltb n r.next)) [
    | inl old ↦ ground (
      arith,
      w.kept n (ground arith),
      is_held-insert n id (new_threads server.queues r.next) r.queue_threads_by_server_id gone,
    )
    | inr new ↦ ground (
      arith,
      new_threads-has_thread n r.next server.queues (ground arith) before,
      is_held-insert n id (new_threads server.queues r.next) r.queue_threads_by_server_id gone,
    )
  ];
}

-- After any operations, every listener that was started is held by the registry under a server, or was
-- told to stop.
pub reachable-KeepsThreads : (r : Registry) → Reachable r → KeepsThreads r
unfolding start_server stop_server
reachable-KeepsThreads _ empty = record { distinct = tt; kept = λ n before. ground arith }
reachable-KeepsThreads _ (started {r} id server loaded before) =
    let w = reachable-KeepsThreads r before in
    register-KeepsThreads (stop_server_locked id r) id server (threads_gone id r w)
      (stop-KeepsThreads r id w)
reachable-KeepsThreads _ (stopped {r} id before) =
    stop-KeepsThreads r id (reachable-KeepsThreads r before)
