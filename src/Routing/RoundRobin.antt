-- ===== src/Routing/RoundRobin.antt =====
-- `RoundRobinRouter` of src/vllm_router/routers/routing_logic.py. `id` of a list object is part of
-- the argument, and `hash` of a tuple of urls is a parameter.
pub mod Cycle
pub mod Rotation
pub mod Stale
use mathlib.Core.Logic.{inl, inr}
use vllm_production_stack_cu.Base.{
  ℕ, zero, suc, ◌+◌, ◌%◌, ◌≤◌, ◌<◌, String, ◌≡◌, refl, ap, sym, ◌∙◌, Bool, true, false, Option,
  none, some, List, [], ◌∷◌, map, arith, eqb, if◌then◌else◌, length, get_elem?, In, Bool-cases,
  get_elem?-In, get_elem?_of_lt, length-map, In-map,
}
use vllm_production_stack_cu.Base.Sort.{sort_by, map-sort_by, length-sort_by}
use vllm_production_stack_cu.Discovery.{EndpointInfo, urls}

-- a Python list of endpoints: its `id`, and what it holds at the call
pub record EndpointList : Type 0 where
  pub identity : ℕ
  pub items : List EndpointInfo

pub record RoundRobin : Type 0 where
  pub req_id : ℕ
  pub sorted_endpoints : List EndpointInfo
  pub last_endpoints_id : Option ℕ
  pub last_endpoints_hash : Option ℕ

unfoldable pub new_round_robin : RoundRobin
new_round_robin = record {
  req_id = 0;
  sorted_endpoints = [];
  last_endpoints_id = none;
  last_endpoints_hash = none;
}

-- last == n, where last may be None
abbrev pub is_last : ℕ → Option ℕ → Bool
is_last n none = false
is_last n (some m) = eqb n m

module _ (hash : List String → ℕ) where
  -- the part of `route_request` under the two tests
  unfoldable pub refresh : RoundRobin → EndpointList → RoundRobin
  refresh s l =
      if is_last l.identity s.last_endpoints_id
      then s
      else (let h = hash (urls l.items) in
          let s' =
            (if is_last h s.last_endpoints_hash then s else record s {
              sorted_endpoints = sort_by (λ e. e.url) l.items;
              last_endpoints_hash = some h;
            }) in
          record s' { last_endpoints_id = some l.identity })

  -- `none` is the ZeroDivisionError of an empty list; the counter then stays.
  unfoldable pub route_request : RoundRobin → EndpointList → RoundRobin × Option String
  route_request s l =
      let s' = refresh s l in
      elim (get_elem? s'.sorted_endpoints (s'.req_id % length s'.sorted_endpoints)) [
        | none ↦ (s', none)
        | some chosen ↦ (record s' { req_id = s'.req_id + 1 }, some chosen.url)
      ]
