-- ===== src/Events/Delivery.antt =====
-- What a subscriber is sent, and the bounds of the history and of the queues.
use mathlib.Core.List.{append_assoc, append-nil}
use quality_flow.Base.{
  ℕ, zero, suc, ◌-◌, ◌<◌, ◌≡◌, refl, sym, ap, subst, ◌∙◌, true, false, inl, inr, Bool-cases, is_nil,
  String, List, [], ◌∷◌, ◌++◌, length, length-append, ltb, ◌==ℕ◌, ◌==◌, if◌then◌else◌, All, arith,
}
use quality_flow.Base.Dict.{Dict, lookup, insert, lookup-insert}
use quality_flow.Events.{
  Bus, entries, tail, append_bounded, put_nowait, event_history_size, queue_size, deliver,
  publish_frame, subscribe_to_execution,
}

abbrev pub take {ℓ} : {A : Type ℓ} → ℕ → List A → List A
take n [] = []
take zero (x ∷ xs) = []
take (suc n) (x ∷ xs) = x ∷ take n xs

abbrev pub drop {ℓ} : {A : Type ℓ} → ℕ → List A → List A
drop n [] = []
drop zero (x ∷ xs) = x ∷ xs
drop (suc n) (x ∷ xs) = drop n xs

-- The last items of a list, at most `n`.
abbrev pub keep_last {ℓ} : {A : Type ℓ} → ℕ → List A → List A
keep_last n xs = drop (length xs - n) xs

-- The queue that follows a list of frames holds its first ones.
put_nowait-take :
    (n : ℕ) (xs : List String) (x : String) → put_nowait n (take n xs) x ≡ take n (xs ++ (x ∷ []))
put_nowait-take zero [] x = ground arith
put_nowait-take (suc n) [] x = ground arith
put_nowait-take zero (y ∷ ys) x = refl
put_nowait-take (suc n) (y ∷ ys) x = ground (arith, put_nowait-take n ys x)

drop-append :
    (n : ℕ) (xs ys : List String) → n < suc (length xs) → drop n (xs ++ ys) ≡ drop n xs ++ ys
drop-append zero [] [] h = refl
drop-append zero [] (y ∷ ys) h = refl
drop-append zero (x ∷ xs) ys h = refl
drop-append (suc n) [] ys h = ground arith
drop-append (suc n) (x ∷ xs) ys h = drop-append n xs ys (omega arith)

tail-drop : (n : ℕ) (xs : List String) → tail (drop n xs) ≡ drop (suc n) xs
tail-drop zero [] = refl
tail-drop (suc n) [] = refl
tail-drop zero (x ∷ []) = refl
tail-drop zero (x ∷ y ∷ xs) = refl
tail-drop (suc n) (x ∷ xs) = tail-drop n xs

length-drop : (n : ℕ) (xs : List String) → length (drop n xs) ≡ length xs - n
length-drop zero [] = omega arith
length-drop (suc n) [] = omega arith
length-drop zero (x ∷ xs) = omega arith
length-drop (suc n) (x ∷ xs) = omega (arith, length-drop n xs)

drop_zero : (xs : List String) → drop 0 xs ≡ xs
drop_zero [] = refl
drop_zero (x ∷ xs) = refl

-- A deque with `maxlen` that follows a list of frames holds its last ones.
append_bounded-keep_last :
    (m : ℕ) (xs : List String) (x : String)
    → append_bounded (suc m) (keep_last (suc m) xs) x ≡ keep_last (suc m) (xs ++ (x ∷ []))
append_bounded-keep_last m xs x = elim (Bool-cases (ltb (length xs) (suc m))) [
  | inl few ↦ few_frames few
  | inr many ↦ many_frames many
]
  where
    few_frames :
        ltb (length xs) (suc m) ≡ true
        → append_bounded (suc m) (keep_last (suc m) xs) x ≡ keep_last (suc m) (xs ++ (x ∷ []))
    few_frames few =
        let none_dropped : length xs - suc m ≡ 0 = ground arith in
        let none_dropped' : length (xs ++ (x ∷ [])) - suc m ≡ 0 =
          ground (arith, length-append xs (x ∷ [])) in
        rw (none_dropped, none_dropped', drop_zero xs, drop_zero (xs ++ (x ∷ [])), few) refl

    many_frames :
        ltb (length xs) (suc m) ≡ false
        → append_bounded (suc m) (keep_last (suc m) xs) x ≡ keep_last (suc m) (xs ++ (x ∷ []))
    many_frames many =
        let full : ltb (length (keep_last (suc m) xs)) (suc m) ≡ false =
          ground (arith, length-drop (length xs - suc m) xs) in
        let one_more : length (xs ++ (x ∷ [])) - suc m ≡ suc (length xs - suc m) =
          ground (arith, length-append xs (x ∷ [])) in
        rw (full, one_more, drop-append (suc (length xs - suc m)) xs (x ∷ []) (ground arith))
          (ap (λ t. t ++ (x ∷ [])) (tail-drop (length xs - suc m) xs))

-- Addresses other than `q`.
abbrev pub IsApart : ℕ → List ℕ → Type 0
IsApart q = All (λ x. (x ==ℕ q) ≡ false)

deliver-apart :
    (frame : String) (qs : List ℕ) (queues : ℕ → List String) (q : ℕ)
    → IsApart q qs
    → deliver frame qs queues q ≡ queues q
unfolding deliver
deliver-apart frame [] queues q h = refl
deliver-apart frame (x ∷ qs) queues q (h, hs) = deliver-apart frame qs _ q hs ∙ rw h refl

deliver-last :
    (frame : String) (qs : List ℕ) (queues : ℕ → List String) (q : ℕ)
    → IsApart q qs
    → deliver frame (qs ++ (q ∷ [])) queues q ≡ put_nowait queue_size (queues q) frame
unfolding deliver
deliver-last frame [] queues q h = ground arith
deliver-last frame (x ∷ qs) queues q (h, hs) = deliver-last frame qs _ q hs ∙ rw h refl

-- The frames of one execution among those that are published.
abbrev pub frames_of : String → List (String × String) → List String
frames_of id [] = []
frames_of id ((j, frame) ∷ es) = if id == j then frame ∷ frames_of id es else frames_of id es

abbrev pub publish_all : List (String × String) → Bus → Bus
publish_all [] b = b
publish_all ((j, frame) ∷ es) b = publish_all es (publish_frame j frame b)

-- The queue `q` is the last subscriber of one execution, and subscribes to no other.
record IsSubscribed (id : String) (q : ℕ) (subscribers : Dict (List ℕ)) : Type 0 where
  pub others : List ℕ
  pub here : entries id subscribers ≡ others ++ (q ∷ [])
  pub others_apart : IsApart q others
  pub elsewhere : (j : String) → (id == j) ≡ false → IsApart q (entries j subscribers)

publish_frame-queue :
    (id j frame : String) (q : ℕ) (b : Bus)
    → IsSubscribed id q b.subscribers
    → (publish_frame j frame b).queue q
      ≡ (if id == j then put_nowait queue_size (b.queue q) frame else b.queue q)
unfolding publish_frame
publish_frame-queue id j frame q b h = elim (Bool-cases (id == j)) [
  | inl same ↦
      rw (same, sym (eq_of_test same), h.here)
        (deliver-last frame h.others b.queue q h.others_apart)
  | inr differ ↦ rw differ (deliver-apart frame _ b.queue q (h.elsewhere j differ))
]
  where
    eq_of_test : (id == j) ≡ true → id ≡ j
    eq_of_test e = ground arith

publish_frame-IsSubscribed :
    (id j frame : String) (q : ℕ) (b : Bus)
    → IsSubscribed id q b.subscribers
    → IsSubscribed id q (publish_frame j frame b).subscribers
unfolding publish_frame
publish_frame-IsSubscribed id j frame q b h = h

-- The queue of a subscriber, as frames are published.
publish_all-queue :
    (id : String) (q : ℕ) (es : List (String × String)) (b : Bus) (xs : List String)
    → IsSubscribed id q b.subscribers
    → b.queue q ≡ take queue_size xs
    → (publish_all es b).queue q ≡ take queue_size (xs ++ frames_of id es)
publish_all-queue id q [] b xs h e = e ∙ ap (take queue_size) (sym (append-nil xs))
publish_all-queue id q ((j, frame) ∷ es) b xs h e = elim (Bool-cases (id == j)) [
  | inl same ↦
      publish_all-queue id q es _ (xs ++ (frame ∷ [])) (publish_frame-IsSubscribed id j frame q b h)
        (publish_frame-queue id j frame q b h ∙ rw (same, e) (put_nowait-take queue_size xs frame))
      ∙ rw same (ap (take queue_size) (append_assoc xs (frame ∷ []) (frames_of id es)))
  | inr differ ↦
      publish_all-queue id q es _ xs (publish_frame-IsSubscribed id j frame q b h)
        (publish_frame-queue id j frame q b h ∙ rw differ e)
      ∙ rw differ refl
]

==_comm : (s t : String) → (s == t) ≡ (t == s)
==_comm s t = ground arith

pub publish_frame-history :
    (id j frame : String) (b : Bus)
    → entries id (publish_frame j frame b).history ≡ (
        if id == j
        then append_bounded event_history_size (entries id b.history) frame
        else entries id b.history)
unfolding publish_frame
publish_frame-history id j frame b =
    let v = append_bounded event_history_size (entries j b.history) frame in
    ground (arith, lookup-insert id j v b.history, ==_comm id j)

-- The history of an execution, as frames are published.
publish_all-history :
    (id : String) (es : List (String × String)) (b : Bus) (xs : List String)
    → entries id b.history ≡ keep_last event_history_size xs
    → entries id (publish_all es b).history ≡ keep_last event_history_size (xs ++ frames_of id es)
publish_all-history id [] b xs e = e ∙ ap (keep_last event_history_size) (sym (append-nil xs))
publish_all-history id ((j, frame) ∷ es) b xs e = elim (Bool-cases (id == j)) [
  | inl same ↦
      publish_all-history id es _ (xs ++ (frame ∷ []))
        (publish_frame-history id j frame b ∙ rw (same, e) (append_bounded-keep_last 499 xs frame))
      ∙ rw same (ap (keep_last event_history_size) (append_assoc xs (frame ∷ []) (frames_of id es)))
  | inr differ ↦
      publish_all-history id es _ xs (publish_frame-history id j frame b ∙ rw differ e)
      ∙ rw differ refl
]

-- A subscriber of an execution is a queue that the bus has allocated, and an execution with an
-- entry has a subscriber.
abbrev pub IsEntry : ℕ → String × List ℕ → Type 0
IsEntry n (id, qs) = All (λ q. q < n) qs × (is_nil qs ≡ false)

entries-cons :
    {A : Type 0} (i j : String) (xs : List A) (d : Dict (List A))
    → entries j ((i, xs) ∷ d) ≡ (if i == j then xs else entries j d)
unfolding lookup
entries-cons i j xs d = ground arith

pub entries-insert :
    {A : Type 0} (id j : String) (xs : List A) (d : Dict (List A))
    → entries j (insert id xs d) ≡ (if id == j then xs else entries j d)
entries-insert id j xs d = ground (arith, lookup-insert j id xs d)

pub entries-known :
    (n : ℕ) (d : Dict (List ℕ)) (j : String) → All (IsEntry n) d → All (λ q. q < n) (entries j d)
unfolding lookup
entries-known n [] j h = tt
entries-known n ((i, qs) ∷ d) j (h, hs) = elim (Bool-cases (i == j)) [
  | inl same ↦ subst (All (λ q. q < n)) (sym (entries-cons i j qs d ∙ rw same refl)) h.0
  | inr differ ↦
      subst (All (λ q. q < n)) (sym (entries-cons i j qs d ∙ rw differ refl))
        (entries-known n d j hs)
]

pub known-IsApart : (n : ℕ) (qs : List ℕ) → All (λ q. q < n) qs → IsApart n qs
known-IsApart n [] h = tt
known-IsApart n (q ∷ qs) (h, hs) = (ground arith, known-IsApart n qs hs)

subscribe-IsSubscribed :
    (id : String) (b : Bus)
    → All (IsEntry b.next) b.subscribers
    → let (q, h, b') = subscribe_to_execution id b in IsSubscribed id q b'.subscribers
unfolding subscribe_to_execution
subscribe-IsSubscribed id b k = record {
  others = entries id b.subscribers;
  here = entries-insert id id _ b.subscribers ∙ ground arith;
  others_apart = known-IsApart b.next _ (entries-known b.next b.subscribers id k);
  elsewhere = λ j differ.
      subst (IsApart b.next)
        (sym (
          entries-insert id j (entries id b.subscribers ++ (b.next ∷ [])) b.subscribers
          ∙ rw differ refl))
        (known-IsApart b.next _ (entries-known b.next b.subscribers j k));
}

pub subscribe-delivers_known :
    (id : String) (b : Bus) (es : List (String × String))
    → All (IsEntry b.next) b.subscribers
    → length (entries id b.history) < 501
    → let (q, h, b') = subscribe_to_execution id b in
      let b'' = publish_all es b' in
      (h ≡ entries id b.history)
      × (b''.queue q ≡ take queue_size (frames_of id es))
      × (entries id b''.history ≡ keep_last event_history_size (h ++ frames_of id es))
unfolding subscribe_to_execution
subscribe-delivers_known id b es k short = (
  refl,
  publish_all-queue id b.next es _ [] (subscribe-IsSubscribed id b k) (ground arith),
  publish_all-history id es _ (entries id b.history)
      (ground (arith, drop_zero (entries id b.history))),
)
