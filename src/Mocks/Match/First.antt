-- ===== src/Mocks/Match/First.antt =====
-- The route that answers is the first one of those that match.
use quality_flow.Base.{
  ◌≡◌, sym, subst, Bool, true, false, String, Option, none, some, List, [], ◌∷◌, All, if_intro,
  arith,
}
use quality_flow.Base.Int.{ℤ, ◌≤ℤ◌}
use quality_flow.Asserts.{Json}
use quality_flow.Mocks.Runtime.{
  MockApiRoute, MockRuntimeServer, route_precedes, insert_route, sort_routes,
}
use quality_flow.Mocks.Match.{Request, route_matches, find_route, find_matching_api_route}

-- A route is one of a list: what holds of all of these holds of it.
abbrev pub IsAmong : MockApiRoute → List MockApiRoute → Type 1
IsAmong r rs = (P : MockApiRoute → Type 0) → All P rs → P r

-- No route stands before one of a lower priority.
abbrev IsSorted : List MockApiRoute → Type 0
IsSorted [] = Unit
IsSorted (r ∷ rs) = All (λ q. r.priority ≤ℤ q.priority) rs × IsSorted rs

All-insert_route :
    (P : MockApiRoute → Type 0) (r : MockApiRoute) (rs : List MockApiRoute)
    → P r
    → All P rs
    → All P (insert_route r rs)
unfolding insert_route
All-insert_route P r [] p h = (p, tt)
All-insert_route P r (q ∷ qs) p (h, hs) =
    if_intro (All P) (route_precedes q r) _ _ (λ _. (h, All-insert_route P r qs p hs))
      (λ _. (p, (h, hs)))

at_most_trans :
    (n m : ℤ) (rs : List MockApiRoute)
    → n ≤ℤ m
    → All (λ q. m ≤ℤ q.priority) rs
    → All (λ q. n ≤ℤ q.priority) rs
at_most_trans n m [] e h = tt
at_most_trans n m (r ∷ rs) e (h, hs) = (omega (arith, e, h), at_most_trans n m rs e hs)

insert_route-IsSorted :
    (r : MockApiRoute) (rs : List MockApiRoute) → IsSorted rs → IsSorted (insert_route r rs)
unfolding insert_route
insert_route-IsSorted r [] h = (tt, tt)
insert_route-IsSorted r (q ∷ qs) (h, hs) =
    if_intro IsSorted (route_precedes q r) _ _
      (λ before. (
        All-insert_route (λ p. q.priority ≤ℤ p.priority) r qs (ground arith) h,
        insert_route-IsSorted r qs hs,
      ))
      (λ after. ((ground arith, at_most_trans r.priority q.priority qs (ground arith) h), (h, hs)))

sort_routes-IsSorted : (rs : List MockApiRoute) → IsSorted (sort_routes rs)
unfolding sort_routes
sort_routes-IsSorted [] = tt
sort_routes-IsSorted (r ∷ rs) = insert_route-IsSorted r (sort_routes rs) (sort_routes-IsSorted rs)

All-sort_routes :
    (P : MockApiRoute → Type 0) (rs : List MockApiRoute) → All P rs → All P (sort_routes rs)
unfolding sort_routes
All-sort_routes P [] h = tt
All-sort_routes P (r ∷ rs) (h, hs) =
    All-insert_route P r (sort_routes rs) h (All-sort_routes P rs hs)

insert_route-All :
    (P : MockApiRoute → Type 0) (r : MockApiRoute) (rs : List MockApiRoute)
    → All P (insert_route r rs)
    → P r × All P rs
unfolding insert_route
insert_route-All P r [] h = h
insert_route-All P r (q ∷ qs) h =
    let rest = insert_route-All P r qs in
    if_intro (λ xs. All P xs → P r × (P q × All P qs)) (route_precedes q r) _ _
      (λ _ (p, ps). ((rest ps).0, (p, (rest ps).1))) (λ _ ps. ps) h

sort_routes-All :
    (P : MockApiRoute → Type 0) (rs : List MockApiRoute) → All P (sort_routes rs) → All P rs
unfolding sort_routes
sort_routes-All P [] h = tt
sort_routes-All P (r ∷ rs) h =
    let (p, hs) = insert_route-All P r (sort_routes rs) h in (p, sort_routes-All P rs hs)

module _ (same : Json → Json → Bool) (to_text : Json → String) (q : Request same to_text) where
  -- The route is one of the list, it matches, and no route that matches has a lower priority.
  pub record IsFirst (routes : List MockApiRoute) (r : MockApiRoute) : Type 1 where
    pub among : IsAmong r routes
    pub matches : route_matches same to_text q r ≡ true
    pub least : All (λ p. route_matches same to_text q p ≡ true → r.priority ≤ℤ p.priority) routes

  abbrev pub NoneMatches : List MockApiRoute → Type 0
  NoneMatches = All (λ p. route_matches same to_text q p ≡ false)

  -- What the loop gives on a list of routes.
  abbrev pub Answers : List MockApiRoute → Option MockApiRoute → Type 1
  Answers routes none = NoneMatches routes × Unit {1}
  Answers routes (some r) = IsFirst routes r

  matching_at_least :
      (n : ℤ) (routes : List MockApiRoute)
      → All (λ p. n ≤ℤ p.priority) routes
      → All (λ p. route_matches same to_text q p ≡ true → n ≤ℤ p.priority) routes
  matching_at_least n [] h = tt
  matching_at_least n (r ∷ rs) (h, hs) = ((λ _. h), matching_at_least n rs hs)

  find_route-Answers :
      (routes : List MockApiRoute)
      → IsSorted routes
      → Answers routes (find_route same to_text q routes)
  unfolding find_route
  find_route-Answers [] h = (tt, tt)
  find_route-Answers (r ∷ rs) (h, hs) =
      if_intro (Answers (r ∷ rs)) (route_matches same to_text q r) _ _
        (λ matches. record {
          among = λ P a. a.0;
          matches = matches;
          least = ((λ _. omega arith), matching_at_least r.priority rs h);
        })
        (λ differs. later differs (find_route same to_text q rs) (find_route-Answers rs hs))
    where
      later :
          route_matches same to_text q r ≡ false
          → (o : Option MockApiRoute) → Answers rs o
          → Answers (r ∷ rs) o
      later differs none (a, _) = ((differs, a), tt)
      later differs (some p) a = record {
        among = λ P b. a.among P b.1;
        matches = a.matches;
        least = ((λ m. ground arith), a.least);
      }

  -- Where a server has its routes in the order in which they are loaded, the dispatcher gives a route
  -- that matches the request and has the least priority of those that match, and it gives none only
  -- if no route matches.
  pub find_matching_api_route-Answers :
      (server : MockRuntimeServer) (routes : List MockApiRoute)
      → server.apis ≡ sort_routes routes
      → Answers routes (find_matching_api_route same to_text server q)
  unfolding find_matching_api_route
  find_matching_api_route-Answers server routes loaded =
      subst (λ apis. Answers routes (find_route same to_text q apis)) (sym loaded)
        (unsorted (find_route same to_text q (sort_routes routes))
          (find_route-Answers (sort_routes routes) (sort_routes-IsSorted routes)))
    where
      unsorted : (o : Option MockApiRoute) → Answers (sort_routes routes) o → Answers routes o
      unsorted none (a, _) = (sort_routes-All _ routes a, tt)
      unsorted (some r) a = record {
        among = λ P b. a.among P (All-sort_routes P routes b);
        matches = a.matches;
        least = sort_routes-All _ routes a.least;
      }
