-- ===== src/Routing/RoundRobin/Stale.antt =====
-- What the round robin does when the `id` of the endpoint list was that of an earlier list.
use native.Mathlib.Nat.{mod-lt}
use vllm_production_stack_cu.Base.{
  ℕ, ◌%◌, ◌<◌, String, ◌≡◌, refl, true, some, List, length, get_elem?, In, All, All-In,
  get_elem?-In, get_elem?_of_lt,
}
use vllm_production_stack_cu.Discovery.{EndpointInfo, urls}
use vllm_production_stack_cu.Routing.RoundRobin.{
  EndpointList, RoundRobin, is_last, refresh, route_request,
}

module _ (hash : List String → ℕ) where
  refresh_stale :
      (s : RoundRobin) (l : EndpointList)
      → is_last l.identity s.last_endpoints_id ≡ true
      → refresh hash s l ≡ s
  unfolding refresh
  refresh_stale s l same = rw (same, refresh) refl

  answer_stale :
      (s : RoundRobin) (l : EndpointList) (a : EndpointInfo)
      → is_last l.identity s.last_endpoints_id ≡ true
      → get_elem? s.sorted_endpoints (s.req_id % length s.sorted_endpoints) ≡ some a
      → (route_request hash s l).1 ≡ some a.url
  unfolding route_request
  answer_stale s l a same e = rw (refresh_stale s l same, route_request) (rw e refl)

  -- If the `id` of the list is the one seen last, and none of the urls kept from that time, of
  -- which there are some, is in the list, the router answers with a url that is not in the list.
  pub route_request_stale :
      (s : RoundRobin) (l : EndpointList)
      → is_last l.identity s.last_endpoints_id ≡ true
      → 0 < length s.sorted_endpoints
      → All (λ (e : EndpointInfo). ¬ In e.url (urls l.items)) s.sorted_endpoints
      → (u : String) × ((route_request hash s l).1 ≡ some u) × (¬ In u (urls l.items))
  route_request_stale s l same pos gone =
      let (a, e) =
        get_elem?_of_lt s.sorted_endpoints (s.req_id % length s.sorted_endpoints)
          (mod-lt s.req_id pos) in
      (
        a.url,
        answer_stale s l a same e,
        All-In (λ (x : EndpointInfo). ¬ In x.url (urls l.items)) s.sorted_endpoints gone
            (get_elem?-In s.sorted_endpoints _ e),
      )
