-- ===== src/Events/Stream.antt =====
-- When the stream of a client ends.
use quality_flow.Base.{
  ◌≡◌, refl, sym, ap, ◌∙◌, false, ◌||◌, inl, inr, Bool-cases, String, Option, none, some, List, [],
  ◌∷◌, ◌++◌, map, arith,
}
use quality_flow.Events.{is_final, finished_in_history, follow, stream_frames}

-- The frames that the queue gave.
abbrev pub received : List (Option String) → List String
received [] = []
received (none ∷ polled) = received polled
received (some frame ∷ polled) = frame ∷ received polled

-- What is sent for a poll.
abbrev pub frame_or : String → Option String → String
frame_or heartbeat none = heartbeat
frame_or heartbeat (some frame) = frame

follow-ends :
    (heartbeat : String) (polled : List (Option String))
    → (follow heartbeat polled).1 ≡ finished_in_history (received polled)
unfolding follow finished_in_history
follow-ends heartbeat [] = refl
follow-ends heartbeat (none ∷ polled) = follow-ends heartbeat polled
follow-ends heartbeat (some frame ∷ polled) = elim (Bool-cases (is_final frame)) [
  | inl e ↦ rw e refl
  | inr e ↦ rw e (follow-ends heartbeat polled)
]

follow-sends :
    (heartbeat : String) (polled : List (Option String))
    → finished_in_history (received polled) ≡ false
    → (follow heartbeat polled).0 ≡ map (frame_or heartbeat) polled
unfolding follow finished_in_history
follow-sends heartbeat [] h = refl
follow-sends heartbeat (none ∷ polled) h = ap (◌∷◌ heartbeat) (follow-sends heartbeat polled h)
follow-sends heartbeat (some frame ∷ polled) h = ground (arith, follow-sends heartbeat polled)

finished-append :
    (xs ys : List String)
    → finished_in_history (xs ++ ys) ≡ (finished_in_history xs || finished_in_history ys)
unfolding finished_in_history
finished-append [] ys = refl
finished-append (x ∷ xs) ys = ground (arith, finished-append xs ys)

-- The stream of a client has ended exactly if one of the frames of the history or of those that the
-- queue gave contains the end of an execution. As long as there is none, every frame of the history
-- and every frame from the queue is sent, in order, and a heartbeat for each wait without one.
pub stream_frames-ends :
    (heartbeat : String) (history : List String) (polled : List (Option String))
    → let (sent, ended) = stream_frames heartbeat history polled in
      (ended ≡ finished_in_history (history ++ received polled))
      × (ended ≡ false → sent ≡ history ++ map (frame_or heartbeat) polled)
unfolding stream_frames
stream_frames-ends heartbeat history polled = elim (Bool-cases (finished_in_history history)) [
  | inl e ↦ ground (arith, finished-append history (received polled))
  | inr e ↦
      rw (e, finished-append history (received polled), e)
        (
          follow-ends heartbeat polled,
          λ h.
              ap (λ t. history ++ t)
                (follow-sends heartbeat polled (sym (follow-ends heartbeat polled) ∙ h)),
        )
]
