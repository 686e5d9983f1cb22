-- ===== src/Events.antt =====
-- The bus of execution events: app/elaborations/services/suite_runs/execution_event_bus.py.
pub mod Delivery
pub mod Reach
pub mod Stream
mod Tests
use quality_flow.Base.{
  ℕ, suc, ◌||◌, ◌&&◌, Bool, true, false, String, ◌<>◌, Option, none, some, List, [], ◌∷◌, ◌++◌,
  length, ltb, ◌==ℕ◌, if◌then◌else◌, is_nil,
}
use Prim.Native.Char.{code}
use quality_flow.Base.Dict.{Dict, lookup, insert, erase}
use quality_flow.Base.Text.{is_empty}

abbrev pub event_history_size : ℕ
event_history_size = 500

abbrev pub queue_size : ℕ
queue_size = 1000

-- The frames of each execution, and its subscribers. A subscriber is the address of its queue.
pub record Bus : Type 0 where
  pub history : Dict (List String)
  pub subscribers : Dict (List ℕ)
  pub next : ℕ
  pub queue : ℕ → List String

-- `d.get(key, [])`
abbrev pub entries {ℓ} : {A : Type ℓ} → String → Dict (List A) → List A
entries key d = elim (lookup key d) [ none ↦ [] | some xs ↦ xs ]

abbrev pub tail {ℓ} : {A : Type ℓ} → List A → List A
tail [] = []
tail (x ∷ xs) = xs

-- `append` on a deque with `maxlen`: the oldest item makes room.
abbrev pub append_bounded : ℕ → List String → String → List String
append_bounded n xs x = if ltb (length xs) n then xs ++ (x ∷ []) else tail xs ++ (x ∷ [])

-- `put_nowait` of a queue with `maxsize`: a full queue drops the frame.
abbrev pub put_nowait : ℕ → List String → String → List String
put_nowait n xs x = if ltb (length xs) n then xs ++ (x ∷ []) else xs

-- `_serialize_sse_frame`; `payload` is the JSON text of the data.
unfoldable pub serialize_sse_frame : String → String → String
serialize_sse_frame event_name payload =
    "event: " <> (event_name <> ("\ndata: " <> (payload <> "\n\n")))

-- The loop over the subscribers.
unfoldable pub deliver : String → List ℕ → (ℕ → List String) → ℕ → List String
deliver frame [] queues = queues
deliver frame (q ∷ qs) queues =
    deliver frame qs (λ a. if q ==ℕ a then put_nowait queue_size (queues q) frame else queues a)

-- `publish_execution_event` of a frame
unfoldable pub publish_frame : String → String → Bus → Bus
unfolding deliver
publish_frame execution_id frame b = record b {
  history =
      insert execution_id (append_bounded event_history_size (entries execution_id b.history) frame)
        b.history;
  queue = deliver frame (entries execution_id b.subscribers) b.queue;
}

-- `publish_execution_event`
unfoldable pub publish_execution_event : String → String → String → Bus → Bus
unfolding publish_frame
publish_execution_event execution_id event_name payload b =
    if is_empty execution_id
    then b
    else publish_frame execution_id (serialize_sse_frame event_name payload) b

-- `subscribe_to_execution`: the new queue, the history, and the bus.
unfoldable pub subscribe_to_execution : String → Bus → ℕ × List String × Bus
subscribe_to_execution execution_id b = (
  b.next,
  entries execution_id b.history,
  record b {
    subscribers =
        insert execution_id (entries execution_id b.subscribers ++ (b.next ∷ [])) b.subscribers;
    next = suc b.next;
    queue = λ a. if b.next ==ℕ a then [] else b.queue a;
  },
)

-- `get` of a subscriber's queue, where it holds a frame
abbrev pub get_frame : ℕ → Bus → Bus
get_frame q b = record b { queue = λ a. if q ==ℕ a then tail (b.queue q) else b.queue a }

-- `subscribers.remove(q)` where `q` is among them
unfoldable pub remove_queue : ℕ → List ℕ → List ℕ
remove_queue q [] = []
remove_queue q (x ∷ xs) = if x ==ℕ q then xs else x ∷ remove_queue q xs

abbrev pub keep_subscribers : String → List ℕ → Dict (List ℕ) → Dict (List ℕ)
keep_subscribers execution_id [] d = erase execution_id d
keep_subscribers execution_id (q ∷ qs) d = insert execution_id (q ∷ qs) d

-- `unsubscribe_from_execution`: with its last subscriber an execution's entry goes.
unfoldable pub unsubscribe_from_execution : String → ℕ → Bus → Bus
unfolding remove_queue
unsubscribe_from_execution execution_id q b = record b {
  subscribers =
      keep_subscribers execution_id (remove_queue q (entries execution_id b.subscribers))
        b.subscribers;
}

abbrev starts_with : String → String → Bool
starts_with String.[] s = true
starts_with (String.◌∷◌ c t) String.[] = false
starts_with (String.◌∷◌ c t) (String.◌∷◌ d s) = code c ==ℕ code d && starts_with t s

-- `part in s`
unfoldable pub contains : String → String → Bool
contains part String.[] = is_empty part
contains part (String.◌∷◌ c s) = starts_with part (String.◌∷◌ c s) || contains part s

abbrev pub is_final : String → Bool
is_final frame = contains "event: execution_finished" frame

-- The loop over the history: whether a frame of it is final. Each frame is sent.
unfoldable pub finished_in_history : List String → Bool
finished_in_history [] = false
finished_in_history (frame ∷ frames) = is_final frame || finished_in_history frames

-- The loop over what the queue gives: a frame, or `none` after ten seconds without one. The frames
-- that are sent, and whether the loop has ended.
unfoldable pub follow : String → List (Option String) → List String × Bool
follow heartbeat [] = ([], false)
follow heartbeat (none ∷ polled) =
    let (sent, ended) = follow heartbeat polled in (heartbeat ∷ sent, ended)
follow heartbeat (some frame ∷ polled) =
    let (sent, ended) = follow heartbeat polled in
    if is_final frame then (frame ∷ [], true) else (frame ∷ sent, ended)

-- `stream_execution_events` once it has subscribed
unfoldable pub stream_frames : String → List String → List (Option String) → List String × Bool
unfolding finished_in_history follow
stream_frames heartbeat history polled =
    if finished_in_history history
    then (history, true)
    else let (sent, ended) = follow heartbeat polled in (history ++ sent, ended)
