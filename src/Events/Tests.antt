-- ===== src/Events/Tests.antt =====
-- The theorems on events at a bus with one subscriber.
use quality_flow.Base.{◌≡◌, refl, false, ◌<>◌, none, some, [], ◌∷◌, ◌++◌, map}
use quality_flow.Events.{
  Bus, entries, event_history_size, queue_size, publish_frame, subscribe_to_execution,
  unsubscribe_from_execution, serialize_sse_frame, finished_in_history, stream_frames, contains,
}
use quality_flow.Events.Delivery.{publish_all, frames_of, take, keep_last}
use quality_flow.Events.Reach.{
  Reachable, start, publish, subscribe, subscribed, IsBus, reachable-IsBus, subscribe-delivers,
  unsubscribe-subscribe,
}
use quality_flow.Events.Stream.{received, frame_or, stream_frames-ends}

abbrev empty_bus : Bus
empty_bus = record { history = []; subscribers = []; next = 0; queue = λ _. [] }

-- A bus with a frame and a subscriber of the execution `e`.
abbrev bus : Bus
bus = subscribed "e" (publish_frame "e" "first" empty_bus)

bus-Reachable : Reachable bus
bus-Reachable = subscribe "e" (publish "e" "first" start)

reachable-IsBus_example : IsBus bus
reachable-IsBus_example = reachable-IsBus bus bus-Reachable

subscribe-delivers_example :
    let (q, h, b') = subscribe_to_execution "e" bus in
    let b'' = publish_all (("e", "second") ∷ ("f", "other") ∷ ("e", "third") ∷ []) b' in
    (h ≡ entries "e" bus.history)
    × (b''.queue q
        ≡ take queue_size (frames_of "e" (("e", "second") ∷ ("f", "other") ∷ ("e", "third") ∷ [])))
    × (entries "e" b''.history
        ≡ keep_last event_history_size
            (h ++ frames_of "e" (("e", "second") ∷ ("f", "other") ∷ ("e", "third") ∷ [])))
subscribe-delivers_example =
    subscribe-delivers "e" bus (("e", "second") ∷ ("f", "other") ∷ ("e", "third") ∷ [])
      bus-Reachable

unsubscribe-subscribe_example :
    let (q, h, b') = subscribe_to_execution "e" bus in
    (unsubscribe_from_execution "e" q b').subscribers ≡ bus.subscribers
unsubscribe-subscribe_example = unsubscribe-subscribe "e" bus bus-Reachable

-- The last event of a suite does not end a stream.
suite_finished_open : finished_in_history (serialize_sse_frame "suite_finished" "{}" ∷ []) ≡ false
unfolding finished_in_history contains serialize_sse_frame ◌<>◌
suite_finished_open = refl

stream_frames-ends_example :
    let polled = some (serialize_sse_frame "suite_finished" "{}") ∷ none ∷ [] in
    let (sent, ended) = stream_frames "heartbeat" ("first" ∷ []) polled in
    (ended ≡ finished_in_history (("first" ∷ []) ++ received polled))
    × (ended ≡ false → sent ≡ ("first" ∷ []) ++ map (frame_or "heartbeat") polled)
stream_frames-ends_example =
    stream_frames-ends "heartbeat" ("first" ∷ [])
      (some (serialize_sse_frame "suite_finished" "{}") ∷ none ∷ [])
