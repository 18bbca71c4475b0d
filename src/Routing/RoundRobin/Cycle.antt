-- ===== src/Routing/RoundRobin/Cycle.antt =====
-- The round robin goes round: what consecutive calls choose.

use vllm_production_stack_cu.Base.{
  ℕ, zero, suc, ◌+◌, ◌%◌, ◌<◌, String, ◌≡◌, refl, ap, sym, subst, ◌∙◌, Option, some, List, [], ◌∷◌,
  map, arith, length, get_elem?, Bool-cases, get_elem?_of_lt, length-map, Option-cases, inl, inr,
}
use vllm_production_stack_cu.Base.Sort.{sort_by, map-sort_by, length-sort_by}
use vllm_production_stack_cu.Discovery.{EndpointInfo, urls}
use vllm_production_stack_cu.Routing.RoundRobin.{
  EndpointList, RoundRobin, new_round_robin, is_last, refresh, route_request,
}

-- the urls in the order in which they take turns
abbrev pub turn_order : EndpointList → List String
turn_order l = sort_by (λ u. u) (urls l.items)

get_elem?-map :
    {A B : Type 0} (f : A → B) (xs : List A) (i : ℕ) (a : A)
    → get_elem? xs i ≡ some a
    → get_elem? (map f xs) i ≡ some (f a)
get_elem?-map f [] i a e = cc
get_elem?-map f (x ∷ xs) zero a e = ground arith
get_elem?-map f (x ∷ xs) (suc i) a e = get_elem?-map f xs i a e

module _ (hash : List String → ℕ) where
  -- The router has last seen the list `l`.
  pub record IsSynced (s : RoundRobin) (l : EndpointList) : Type 0 where
    pub same_id : s.last_endpoints_id ≡ some l.identity
    pub same_hash : s.last_endpoints_hash ≡ some (hash (urls l.items))
    pub order : map (λ e. e.url) s.sorted_endpoints ≡ turn_order l

  -- Between two calls, an `id` that is used again stands for the same urls, and so does a hash.
  pub record IsHonest (l l' : EndpointList) : Type 0 where
    pub by_id : l.identity ≡ l'.identity → urls l.items ≡ urls l'.items
    pub by_hash : hash (urls l.items) ≡ hash (urls l'.items) → urls l.items ≡ urls l'.items

  Synced_of_urls :
      (s : RoundRobin) (l l' : EndpointList)
      → IsSynced s l
      → urls l.items ≡ urls l'.items
      → IsSynced (record s { last_endpoints_id = some l'.identity }) l'
  Synced_of_urls s l l' y e = record {
    same_id = refl;
    same_hash = y.same_hash ∙ ap (λ us. some (hash us)) e;
    order = y.order ∙ ap (sort_by (λ u. u)) e;
  }

  refresh-IsSynced :
      (s : RoundRobin) (l l' : EndpointList)
      → IsSynced s l
      → IsHonest l l'
      → IsSynced (refresh hash s l') l' × ((refresh hash s l').req_id ≡ s.req_id)
  unfolding refresh
  refresh-IsSynced s l l' y h = elim (Bool-cases (is_last l'.identity s.last_endpoints_id)) [
    | inl same ↦
        rw (same, refresh)
          (
            record {
              same_id = ground arith;
              same_hash = y.same_hash ∙ ap (λ us. some (hash us)) (h.by_id (ground arith));
              order = y.order ∙ ap (sort_by (λ u. u)) (h.by_id (ground arith));
            },
            refl,
          )
    | inr other ↦
        rw (other, refresh)
          (elim (Bool-cases (is_last (hash (urls l'.items)) s.last_endpoints_hash)) [
            | inl same ↦ rw same (Synced_of_urls s l l' y (h.by_hash (ground arith)), refl)
            | inr new ↦ rw new (
              record {
                same_id = refl;
                same_hash = refl;
                order = map-sort_by (λ e. e.url) l'.items;
              },
              refl,
            )
          ])
  ]

  refresh-new :
      (l : EndpointList)
      → IsSynced (refresh hash new_round_robin l) l × ((refresh hash new_round_robin l).req_id ≡ 0)
  unfolding refresh new_round_robin
  refresh-new l =
      (record { same_id = refl; same_hash = refl; order = map-sort_by (λ e. e.url) l.items }, refl)

  -- The states that calls of `route_request` lead to from a new router, with the list of the last
  -- call, where every list is honest after the one before it.
  pub data Served : RoundRobin → EndpointList → Type 0 where
    first : (l : EndpointList) → Served (route_request hash new_round_robin l).0 l
    next :
        {s : RoundRobin} {l : EndpointList} (l' : EndpointList)
        → Served s l
        → IsHonest l l'
        → Served (route_request hash s l').0 l'

  route_request-IsSynced :
      (s : RoundRobin) (l : EndpointList)
      → IsSynced (refresh hash s l) l
      → IsSynced (route_request hash s l).0 l
  unfolding route_request
  route_request-IsSynced s l y =
      elim (Option-cases (get_elem? s'.sorted_endpoints (s'.req_id % length s'.sorted_endpoints))) [
        | inl e ↦ rw (e, route_request) y
        | inr (a, e) ↦
            rw (e, route_request)
              (record { same_id = y.same_id; same_hash = y.same_hash; order = y.order })
      ]
    where
      s' : RoundRobin
      s' = refresh hash s l

  pub Served-IsSynced : {s : RoundRobin} {l : EndpointList} → Served s l → IsSynced s l
  Served-IsSynced (first l) = route_request-IsSynced new_round_robin l (refresh-new l).0
  Served-IsSynced (next {s} {l} l' r h) =
      route_request-IsSynced s l' (refresh-IsSynced s l l' (Served-IsSynced r) h).0

  -- A call chooses the url whose turn it is, and counts on.
  abbrev pub TakesTurn : RoundRobin → EndpointList → Type 0
  TakesTurn s l =
      (u : String) × (get_elem? (turn_order l) (s.req_id % length l.items) ≡ some u)
      × ((route_request hash s l).1 ≡ some u)
      × ((route_request hash s l).0.req_id ≡ s.req_id + 1)

  pub length-turn_order : (l : EndpointList) → length (turn_order l) ≡ length l.items
  length-turn_order l = length-sort_by (λ u. u) (urls l.items) ∙ length-map (λ e. e.url) l.items

  chosen-TakesTurn :
      (s : RoundRobin) (l : EndpointList) (a : EndpointInfo)
      → IsSynced (refresh hash s l) l
      → (refresh hash s l).req_id ≡ s.req_id
      → length (refresh hash s l).sorted_endpoints ≡ length l.items
      → get_elem? (refresh hash s l).sorted_endpoints (s.req_id % length l.items) ≡ some a
      → TakesTurn s l
  unfolding route_request
  chosen-TakesTurn s l a y same len e =
      let s' = refresh hash s l in
      let now : get_elem? s'.sorted_endpoints (s'.req_id % length s'.sorted_endpoints) ≡ some a =
        rw (same, len) e in
      (
        a.url,
        subst (λ us. get_elem? us (s.req_id % length l.items) ≡ some a.url) y.order
            (get_elem?-map (λ x. x.url) s'.sorted_endpoints _ a e),
        rw (now, route_request) refl,
        rw (now, route_request) (rw same refl),
      )

  refresh-TakesTurn :
      (s : RoundRobin) (l : EndpointList)
      → 0 < length l.items
      → IsSynced (refresh hash s l) l
      → (refresh hash s l).req_id ≡ s.req_id
      → TakesTurn s l
  refresh-TakesTurn s l pos y same =
      let s' = refresh hash s l in
      let len : length s'.sorted_endpoints ≡ length l.items =
        sym (length-map (λ e. e.url) s'.sorted_endpoints)
        ∙ ap length y.order
        ∙ length-turn_order l in
      let (a, e) = get_elem?_of_lt s'.sorted_endpoints (s.req_id % length l.items) (omega arith) in
      chosen-TakesTurn s l a y same len e

  -- After any honest calls (lists with the same `id` or the same hash have the same urls), the next
  -- one on a list with endpoints takes the next turn.
  pub route_request-TakesTurn :
      {s : RoundRobin} {l : EndpointList} (l' : EndpointList)
      → Served s l
      → IsHonest l l'
      → 0 < length l'.items
      → TakesTurn s l'
  route_request-TakesTurn {s} {l} l' r h pos =
      let (y, same) = refresh-IsSynced s l l' (Served-IsSynced r) h in
      refresh-TakesTurn s l' pos y same

  -- `k` calls on one list
  unfoldable pub calls : ℕ → RoundRobin → EndpointList → List (Option String)
  calls zero s l = []
  calls (suc k) s l = let (s', answer) = route_request hash s l in answer ∷ calls k s' l

  pub IsHonest-refl : (l : EndpointList) → IsHonest l l
  IsHonest-refl l = record { by_id = λ _. refl; by_hash = λ _. refl }
