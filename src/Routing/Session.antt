-- ===== src/Routing/Session.antt =====
-- `extract_session_id` and `SessionRouter` of src/vllm_router/routers/routing_logic.py. A router is
-- the state of its hash ring and its session key; the class refuses to start without a key.
use vllm_production_stack_cu.Base.{
  String, ◌≡◌, refl, Option, none, some, List, ◌∷◌, ◌⊎◌, inl, inr, Option-cases, sym, ◌∙◌, In,
  string_eq,
}
use vllm_production_stack_cu.Base.Dict.{Dict, mem-In, In-mem}
use vllm_production_stack_cu.Base.Floats.{Floats, IsOrdered}
use vllm_production_stack_cu.Base.Json.{Value, Fields, find}
use vllm_production_stack_cu.Discovery.{EndpointInfo, urls}
use vllm_production_stack_cu.Stats.{RequestStats}
use vllm_production_stack_cu.Routing.Qps.{qps_routing, qps_routing-IsBest}
use vllm_production_stack_cu.Routing.Ring.{
  HashRing, IsRing, update_hash_ring, nodes-update_hash_ring, get_node-update_hash_ring,
}

-- `none` is Python's `None`; a null in the body is that too.
unfoldable pub body_value : Option Value → Option Value
body_value none = none
body_value (some Value.null) = none
body_value (some v) = some v

-- The headers of the request with their names as they are sent, and the JSON body. A router without
-- the attribute `session_key` has the key `none`.
unfoldable pub extract_session_id : Option String → (String → Option String) → Fields → Option Value
unfolding body_value
extract_session_id none headers request_json = none
extract_session_id (some session_key) headers request_json = elim (headers session_key) [
  | some val ↦ some (Value.str val)
  | none ↦ body_value (find session_key request_json)
]

module _ (fl : Floats) (h : HashRing) where
  open h use {Ring, get_node}

  pub record SessionRouter : Type 0 where
    pub session_key : String
    pub hash_ring : Ring

  -- `none` is the ValueError of a missing session key.
  unfoldable pub new_session_router : Option String → Option SessionRouter
  new_session_router none = none
  new_session_router (some key) = some (record { session_key = key; hash_ring = h.empty })

  -- The url is `none` where Python's is `None`.
  unfoldable pub route_request :
      SessionRouter
      → List EndpointInfo
      → Dict String (RequestStats fl)
      → (String → Option String)
      → Fields
      → SessionRouter × Option String
  route_request s endpoints request_stats headers request_json =
      let session_id = extract_session_id (some s.session_key) headers request_json in
      let ring = update_hash_ring h (urls endpoints) s.hash_ring in
      (
        record s { hash_ring = ring },
        elim session_id [
          | none ↦ qps_routing fl endpoints request_stats
          | some key ↦ get_node ring key
        ],
      )

  module _ (order : IsOrdered fl) (law : IsRing h) where
    -- With a hash ring that keeps its laws, floats in order and endpoints to choose from, every
    -- request gets the url of one of them.
    pub route_request-In :
        (s : SessionRouter) (info : EndpointInfo) (rest : List EndpointInfo)
        → (request_stats : Dict String (RequestStats fl)) (headers : String → Option String)
        → (request_json : Fields)
        → (u : String) × ((route_request s (info ∷ rest) request_stats headers request_json).1
            ≡ some u)
          × In u (urls (info ∷ rest))
    unfolding route_request
    route_request-In s info rest request_stats headers request_json =
        elim (Option-cases (extract_session_id (some s.session_key) headers request_json)) [
          | inl e ↦
              let (u, answer, place, _) = qps_routing-IsBest fl order request_stats info rest in
              (u, rw (e, route_request) answer, place)
          | inr (key, e) ↦
              let all = urls (info ∷ rest) in
              let ring = update_hash_ring h all s.hash_ring in
              let (u, answer) = law.node_found ring key info.url (
                nodes-update_hash_ring h law info.url all s.hash_ring
                ∙ mem-In info.url all (inl refl)) in
              (
                u,
                rw (e, route_request) answer,
                In-mem u all (
                    sym (nodes-update_hash_ring h law u all s.hash_ring)
                    ∙ law.node_known ring key u answer),
              )
        ]

    -- With a hash ring that keeps its laws: a session that was sent to `u` is sent there again if
    -- `u` is still an endpoint, unless it moves to an endpoint that the earlier request did not
    -- know.
    pub route_request_sticky :
        (s : SessionRouter) (before after : List EndpointInfo)
        → (stats stats' : Dict String (RequestStats fl)) (headers headers' : String → Option String)
        → (body body' : Fields) (key : Value) (u : String)
        → extract_session_id (some s.session_key) headers body ≡ some key
        → extract_session_id (some s.session_key) headers' body' ≡ some key
        → (route_request s before stats headers body).1 ≡ some u
        → In u (urls after)
        → ((route_request
              (route_request s before stats headers body).0
              after
              stats'
              headers'
              body').1
            ≡ some u)
          ⊎ ((v : String) × ((route_request
                  (route_request s before stats headers body).0
                  after
                  stats'
                  headers'
                  body').1
                ≡ some v)
              × In v (urls after)
              × (¬ In v (urls before)))
    unfolding route_request
    route_request_sticky s before after stats stats' headers headers' body body' key u e e' sent
          stays =
        let ring = update_hash_ring h (urls before) s.hash_ring in
        let first : get_node ring key ≡ some u = rw (e, route_request) at sent in
        elim (get_node-update_hash_ring h law key u (urls after) ring first
          (mem-In u (urls after) stays)) [
            | inl p ↦ inl (rw (e', route_request) p)
            | inr (v, p, here, new) ↦ inr (
              v,
              rw (e', route_request) p,
              In-mem v (urls after) here,
              λ old.
                  let m = nodes-update_hash_ring h law v (urls before) s.hash_ring in
                  let k = mem-In v (urls before) old in cc,
            )
          ]
