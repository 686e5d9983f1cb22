-- ===== src/Events/Reach.antt =====
-- What holds of the bus whatever is published, subscribed to, read and unsubscribed from.
use quality_flow.Base.{
  ℕ, suc, ◌<◌, ◌≡◌, refl, sym, ap, subst, ◌∙◌, false, inl, inr, Bool-cases, is_nil, String, List,
  [], ◌∷◌, ◌++◌, length, length-append, ltb, ◌==ℕ◌, ◌==◌, All, All-append, arith,
}
use quality_flow.Base.Dict.{Dict, lookup, insert, erase}
use quality_flow.Events.{
  Bus, entries, tail, append_bounded, put_nowait, event_history_size, queue_size, deliver,
  publish_frame, subscribe_to_execution, unsubscribe_from_execution, remove_queue, keep_subscribers,
  get_frame,
}
use quality_flow.Events.Delivery.{
  IsEntry, IsApart, known-IsApart, entries-known, entries-insert, publish_frame-history,
  publish_all, frames_of, take, keep_last, subscribe-delivers_known,
}

-- The bus that a client has subscribed to, and the bus that it has left.
abbrev pub subscribed : String → Bus → Bus
subscribed id b = let (q, h, b') = subscribe_to_execution id b in b'

-- The bus when the program starts, and after any sequence of its operations.
pub data Reachable : Bus → Type 0 where
  start : Reachable (record { history = []; subscribers = []; next = 0; queue = λ _. [] })
  publish : {b : Bus} (id frame : String) → Reachable b → Reachable (publish_frame id frame b)
  subscribe : {b : Bus} (id : String) → Reachable b → Reachable (subscribed id b)
  get : {b : Bus} (q : ℕ) → Reachable b → Reachable (get_frame q b)
  unsubscribe :
      {b : Bus} (id : String) (q : ℕ) → Reachable b → Reachable (unsubscribe_from_execution id q b)

-- Histories and queues keep to their sizes, subscribers are queues of the bus, and no execution has
-- an entry without a subscriber.
pub record IsBus (b : Bus) : Type 0 where
  pub known : All (IsEntry b.next) b.subscribers
  pub short_history : (id : String) → length (entries id b.history) < 501
  pub short_queue : (q : ℕ) → length (b.queue q) < 1001

length-tail : (xs : List String) → 0 < length xs → suc (length (tail xs)) ≡ length xs
length-tail [] h = ground arith
length-tail (x ∷ xs) h = refl

length-append_bounded :
    (xs : List String) (x : String) → length xs < 501 → length (append_bounded 500 xs x) < 501
length-append_bounded xs x h = elim (Bool-cases (ltb (length xs) 500)) [
  | inl few ↦ rw few (ground (arith, length-append xs (x ∷ [])))
  | inr many ↦ rw many (ground (arith, length-append (tail xs) (x ∷ []), length-tail xs))
]

length-put_nowait :
    (xs : List String) (x : String) → length xs < 1001 → length (put_nowait 1000 xs x) < 1001
length-put_nowait xs x h = elim (Bool-cases (ltb (length xs) 1000)) [
  | inl few ↦ rw few (ground (arith, length-append xs (x ∷ [])))
  | inr many ↦ rw many h
]

length-deliver :
    (frame : String) (qs : List ℕ) (queues : ℕ → List String)
    → ((q : ℕ) → length (queues q) < 1001)
    → (q : ℕ) → length (deliver frame qs queues q) < 1001
unfolding deliver
length-deliver frame [] queues h q = h q
length-deliver frame (x ∷ qs) queues h q =
    length-deliver frame qs _
      (λ a. elim (Bool-cases (x ==ℕ a)) [
        | inl same ↦ rw same (length-put_nowait (queues x) frame (h x))
        | inr differ ↦ rw differ (h a)
      ])
      q

publish_frame-IsBus : (id frame : String) (b : Bus) → IsBus b → IsBus (publish_frame id frame b)
unfolding publish_frame
publish_frame-IsBus id frame b h = record {
  known = h.known;
  short_history = λ j.
      subst (λ xs. length xs < 501) (sym (publish_frame-history j id frame b))
        (elim (Bool-cases (j == id)) [
          | inl same ↦ rw same (length-append_bounded _ frame (h.short_history j))
          | inr differ ↦ rw differ (h.short_history j)
        ]);
  short_queue = length-deliver frame (entries id b.subscribers) b.queue h.short_queue;
}

entries-weaken : (n : ℕ) (qs : List ℕ) → All (λ q. q < n) qs → All (λ q. q < suc n) qs
entries-weaken n [] k = tt
entries-weaken n (q ∷ qs) (k, ks) = (omega arith, entries-weaken n qs ks)

known-weaken : (n : ℕ) (d : Dict (List ℕ)) → All (IsEntry n) d → All (IsEntry (suc n)) d
known-weaken n [] h = tt
known-weaken n ((id, qs) ∷ d) ((h, ne), hs) = ((entries-weaken n qs h, ne), known-weaken n d hs)

known-insert :
    (n : ℕ) (id : String) (qs : List ℕ) (d : Dict (List ℕ))
    → IsEntry n (id, qs)
    → All (IsEntry n) d
    → All (IsEntry n) (insert id qs d)
unfolding insert
known-insert n id qs [] k h = (k, tt)
known-insert n id qs ((i, rs) ∷ d) k (h, hs) = elim (Bool-cases (i == id)) [
  | inl same ↦ rw same (k, hs)
  | inr differ ↦ rw differ (h, known-insert n id qs d k hs)
]

known-erase :
    (n : ℕ) (id : String) (d : Dict (List ℕ)) → All (IsEntry n) d → All (IsEntry n) (erase id d)
unfolding erase
known-erase n id [] h = tt
known-erase n id ((i, rs) ∷ d) (h, hs) = elim (Bool-cases (i == id)) [
  | inl same ↦ rw same hs
  | inr differ ↦ rw differ (h, known-erase n id d hs)
]

is_nil-append : (xs : List ℕ) (x : ℕ) → is_nil (xs ++ (x ∷ [])) ≡ false
is_nil-append [] x = refl
is_nil-append (y ∷ xs) x = refl

subscribed-IsBus : (id : String) (b : Bus) → IsBus b → IsBus (subscribed id b)
unfolding subscribe_to_execution
subscribed-IsBus id b h = record {
  known =
      known-insert (suc b.next) id _ b.subscribers
        (
          All-append (λ q. q < suc b.next) (entries id b.subscribers) (b.next ∷ [])
              (entries-weaken b.next _ (entries-known b.next b.subscribers id h.known))
              (omega arith, tt),
          is_nil-append (entries id b.subscribers) b.next,
        )
        (known-weaken b.next b.subscribers h.known);
  short_history = h.short_history;
  short_queue = λ q. elim (Bool-cases (b.next ==ℕ q)) [
    | inl same ↦ rw same (omega arith)
    | inr differ ↦ rw differ (h.short_queue q)
  ];
}

get_frame-IsBus : (q : ℕ) (b : Bus) → IsBus b → IsBus (get_frame q b)
get_frame-IsBus q b h = record {
  known = h.known;
  short_history = h.short_history;
  short_queue = λ a. elim (Bool-cases (q ==ℕ a)) [
    | inl same ↦ rw same (shorter (b.queue q) (h.short_queue q))
    | inr differ ↦ rw differ (h.short_queue a)
  ];
}
  where
    shorter : (xs : List String) → length xs < 1001 → length (tail xs) < 1001
    shorter [] k = k
    shorter (x ∷ xs) k = omega arith

known-remove_queue :
    (n q : ℕ) (qs : List ℕ) → All (λ x. x < n) qs → All (λ x. x < n) (remove_queue q qs)
unfolding remove_queue
known-remove_queue n q [] h = tt
known-remove_queue n q (x ∷ qs) (h, hs) = elim (Bool-cases (x ==ℕ q)) [
  | inl same ↦ rw same hs
  | inr differ ↦ rw differ (h, known-remove_queue n q qs hs)
]

known-keep_subscribers :
    (n : ℕ) (id : String) (qs : List ℕ) (d : Dict (List ℕ))
    → All (λ q. q < n) qs
    → All (IsEntry n) d
    → All (IsEntry n) (keep_subscribers id qs d)
known-keep_subscribers n id [] d k h = known-erase n id d h
known-keep_subscribers n id (q ∷ qs) d k h = known-insert n id (q ∷ qs) d (k, refl) h

unsubscribe-IsBus :
    (id : String) (q : ℕ) (b : Bus) → IsBus b → IsBus (unsubscribe_from_execution id q b)
unfolding unsubscribe_from_execution
unsubscribe-IsBus id q b h = record {
  known =
      known-keep_subscribers b.next id _ b.subscribers
        (known-remove_queue b.next q _ (entries-known b.next b.subscribers id h.known)) h.known;
  short_history = h.short_history;
  short_queue = h.short_queue;
}

-- Whatever is published, subscribed to, read and unsubscribed from, in whatever order: no history
-- ever holds more than five hundred frames and no queue more than a thousand, every subscriber is a
-- queue that the bus has made, and no execution keeps an entry without a subscriber.
pub reachable-IsBus : (b : Bus) → Reachable b → IsBus b
unfolding lookup
reachable-IsBus b start = record {
  known = tt;
  short_history = λ id. omega arith;
  short_queue = λ q. omega arith;
}
reachable-IsBus b (publish {b = b0} id frame r) =
    publish_frame-IsBus id frame b0 (reachable-IsBus b0 r)
reachable-IsBus b (subscribe {b = b0} id r) = subscribed-IsBus id b0 (reachable-IsBus b0 r)
reachable-IsBus b (get {b = b0} q r) = get_frame-IsBus q b0 (reachable-IsBus b0 r)
reachable-IsBus b (unsubscribe {b = b0} id q r) = unsubscribe-IsBus id q b0 (reachable-IsBus b0 r)

remove_queue-last : (q : ℕ) (qs : List ℕ) → IsApart q qs → remove_queue q (qs ++ (q ∷ [])) ≡ qs
unfolding remove_queue
remove_queue-last q [] h = ground arith
remove_queue-last q (x ∷ qs) (h, hs) = rw h (ap (◌∷◌ x) (remove_queue-last q qs hs))

keep-past :
    (id i : String) (qs rs : List ℕ) (d : Dict (List ℕ))
    → (i == id) ≡ false
    → keep_subscribers id qs ((i, rs) ∷ d) ≡ (i, rs) ∷ keep_subscribers id qs d
unfolding insert erase
keep-past id i [] rs d h = rw h refl
keep-past id i (q ∷ qs) rs d h = rw h refl

keep-insert :
    (n : ℕ) (id : String) (v : List ℕ) (d : Dict (List ℕ))
    → All (IsEntry n) d
    → keep_subscribers id (entries id d) (insert id v d) ≡ d
unfolding insert erase lookup
keep-insert n id v [] h = ground arith
keep-insert n id v ((i, []) ∷ d) (h, hs) = ground arith
keep-insert n id v ((i, r ∷ rs) ∷ d) (h, hs) = elim (Bool-cases (i == id)) [
  | inl same ↦ ground arith
  | inr differ ↦ ground (
    arith,
    keep-past id i (entries id d) (r ∷ rs) (insert id v d) differ,
    keep-insert n id v d hs,
  )
]

-- After any sequence of operations: a client that subscribes gets the frames that are in the history, and its queue gets, in order
-- and once each, the frames of its execution that are published from then on, as long as a queue
-- that nobody reads has room: the first thousand. The history goes on to hold the last five
-- hundred of all frames of the execution. So nothing is lost between history and queue, and nothing
-- sent twice.
pub subscribe-delivers :
    (id : String) (b : Bus) (es : List (String × String))
    → Reachable b
    → let (q, h, b') = subscribe_to_execution id b in
      let b'' = publish_all es b' in
      (h ≡ entries id b.history)
      × (b''.queue q ≡ take queue_size (frames_of id es))
      × (entries id b''.history ≡ keep_last event_history_size (h ++ frames_of id es))
subscribe-delivers id b es r =
    subscribe-delivers_known id b es (reachable-IsBus b r).known
      ((reachable-IsBus b r).short_history id)

-- After any sequence of operations, a client that subscribes and unsubscribes leaves the
-- subscribers of every execution as they were.
pub unsubscribe-subscribe :
    (id : String) (b : Bus)
    → Reachable b
    → let (q, h, b') = subscribe_to_execution id b in
      (unsubscribe_from_execution id q b').subscribers ≡ b.subscribers
unfolding subscribe_to_execution unsubscribe_from_execution
unsubscribe-subscribe id b r =
    ap (λ qs. keep_subscribers id qs (subscribed id b).subscribers)
      (ap (remove_queue b.next) (
          entries-insert id id (entries id b.subscribers ++ (b.next ∷ [])) b.subscribers
          ∙ ground arith)
        ∙ remove_queue-last b.next _
            (known-IsApart b.next _ (entries-known b.next b.subscribers id known)))
    ∙ keep-insert b.next id _ b.subscribers known
  where
    open reachable-IsBus b r use {known}
