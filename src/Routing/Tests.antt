-- ===== src/Routing/Tests.antt =====
-- The routers at small inputs.
use mathlib.Core.List.{Perm}
use vllm_production_stack_cu.Base.{
  ℕ, ◌*◌, ◌%◌, ◌<◌, String, ◌≡◌, ◌⊎◌, inl, inr, refl, true, false, Option, none, some, List, [],
  ◌∷◌, ◌++◌, map, arith, length, take, drop, In, string_eq,
}
use vllm_production_stack_cu.Base.Dict.{Dict, get, mem, add, to_set}
use vllm_production_stack_cu.Base.Floats.{nat_floats, nat_floats-IsOrdered}
use vllm_production_stack_cu.Base.Json.{Value, Fields, end, field}
use vllm_production_stack_cu.Base.Sort.{sort_by}
use vllm_production_stack_cu.Discovery.{EndpointInfo}
use vllm_production_stack_cu.HashTrie.{
  new_trie, insert, longest_prefix_match, match_loop, intersection,
}
use vllm_production_stack_cu.HashTrie.Chunks.{chunk_and_hash}
use vllm_production_stack_cu.HashTrie.Trie.{descend, child}
use vllm_production_stack_cu.Routing.Ring.Sample.{list_ring, list_ring-IsRing}
use vllm_production_stack_cu.HashTrie.Tests.{digest, past}
use vllm_production_stack_cu.HashTrie.History.{hashes, insert_all}
use vllm_production_stack_cu.Stats.{RequestStats}
use vllm_production_stack_cu.Routing.Qps.{qps_routing, qps_routing-IsBest, IsBest}
use vllm_production_stack_cu.Routing.Ring.{update_hash_ring}
use vllm_production_stack_cu.Routing.Session
use vllm_production_stack_cu.Routing.Session.{SessionRouter, extract_session_id}
use vllm_production_stack_cu.Routing.Disaggregated
use vllm_production_stack_cu.Routing.Disaggregated.{DisaggregatedPrefill, IsStage, IsFirst}
use vllm_production_stack_cu.Routing.PrefixAware.{route_prompt}
use vllm_production_stack_cu.Routing.PrefixAware.Affinity.{route_prompt-In, route_prompt_again}
use vllm_production_stack_cu.Routing.RoundRobin
use vllm_production_stack_cu.Routing.RoundRobin.{EndpointList, RoundRobin, new_round_robin}
use vllm_production_stack_cu.Routing.RoundRobin.Cycle.{
  turn_order, first, TakesTurn, route_request-TakesTurn, calls, IsHonest-refl,
}
use vllm_production_stack_cu.Routing.RoundRobin.Rotation.{calls-rotation}
use vllm_production_stack_cu.Routing.RoundRobin.Stale.{route_request_stale}

abbrev engine : String → String → EndpointInfo
engine url label = record {
  url = url;
  model_names = "m" ∷ [];
  id = url;
  added_timestamp = 0;
  model_label = some label;
  sleep = false;
  pod_name = none;
  service_name = none;
  namespace = none;
  model_info = none;
}

abbrev b : EndpointInfo
b = engine "b" "prefill"

abbrev a : EndpointInfo
a = engine "a" "decode"

-- the round robin

abbrev no_hash : List String → ℕ
no_hash us = length us

abbrev two : EndpointList
two = record { identity = 1; items = b ∷ a ∷ [] }

abbrev after_one : RoundRobin
after_one = (RoundRobin.route_request no_hash new_round_robin two).0

round_robin_run : calls no_hash 3 new_round_robin two ≡ some "a" ∷ some "b" ∷ some "a" ∷ []
unfolding calls RoundRobin.route_request RoundRobin.refresh new_round_robin sort_by
round_robin_run = refl

calls-rotation_example :
    (calls no_hash 2 after_one two
      ≡ map some (
          drop (after_one.req_id % 2) (turn_order two)
          ++ take (after_one.req_id % 2) (turn_order two)))
    × Perm (calls no_hash 2 after_one two) (some "b" ∷ some "a" ∷ [])
calls-rotation_example = calls-rotation no_hash {s = after_one} {l = two} (first two) (omega arith)

route_request-TakesTurn_example : TakesTurn no_hash after_one two
route_request-TakesTurn_example =
    route_request-TakesTurn no_hash {s = after_one} {l = two} two (first two)
      (IsHonest-refl no_hash two) (omega arith)

abbrev stale : RoundRobin
stale = record {
  req_id = 1;
  sorted_endpoints = a ∷ [];
  last_endpoints_id = some 5;
  last_endpoints_hash = some 1;
}

abbrev moved : EndpointList
moved = record { identity = 5; items = b ∷ [] }

a_gone : ¬ In {A = String} "a" ("b" ∷ [])
a_gone (inl e) = let x = (string_eq.same_iff "a" "b").1 e in cc
a_gone (inr i) = i

route_request_stale_example :
    (u : String) × ((RoundRobin.route_request no_hash stale moved).1 ≡ some u) × (¬ In u ("b" ∷ []))
route_request_stale_example =
    route_request_stale no_hash stale moved refl (omega arith) (a_gone, tt)

-- the rates, the ring and the sessions

abbrev stat : ℕ → RequestStats nat_floats
stat n = record {
  qps = n;
  ttft = 0;
  in_prefill_requests = 0;
  in_decoding_requests = 0;
  finished_requests = 0;
  uptime = 0;
  avg_decoding_length = 0;
  avg_latency = 0;
  avg_itl = 0;
  num_swapped_requests = 0;
}

abbrev rates : Dict String (RequestStats nat_floats)
rates = ("a", stat 3) ∷ ("b", stat 5) ∷ []

qps_run : qps_routing nat_floats (b ∷ a ∷ []) rates ≡ some "a"
unfolding qps_routing get
qps_run = refl

qps_routing-IsBest_example :
    (u : String) × (qps_routing nat_floats (b ∷ a ∷ []) rates ≡ some u)
    × In u ("b" ∷ "a" ∷ [])
    × IsBest nat_floats rates ("b" ∷ "a" ∷ []) u
qps_routing-IsBest_example = qps_routing-IsBest nat_floats nat_floats-IsOrdered rates b (a ∷ [])

abbrev sessions : SessionRouter nat_floats list_ring
sessions = record { session_key = "x-user-id"; hash_ring = "b" ∷ "a" ∷ [] }

abbrev headers : String → Option String
headers name = some "u1"

session_run :
    (Session.route_request nat_floats list_ring sessions (b ∷ a ∷ []) rates headers end).1
    ≡ some "b"
unfolding Session.route_request extract_session_id update_hash_ring to_set mem
session_run = refl

session_id : extract_session_id (some "x-user-id") headers end ≡ some (Value.str "u1")
unfolding extract_session_id
session_id = refl

route_request-In_example :
    (u : String) × ((Session.route_request nat_floats list_ring sessions
        (b ∷ a ∷ [])
        rates
        headers
        end).1
      ≡ some u)
    × In u ("b" ∷ "a" ∷ [])
route_request-In_example =
    Session.route_request-In nat_floats list_ring nat_floats-IsOrdered list_ring-IsRing sessions b
      (a ∷ []) rates headers end

abbrev later : SessionRouter nat_floats list_ring
later = (Session.route_request nat_floats list_ring sessions (b ∷ a ∷ []) rates headers end).0

route_request_sticky_example :
    ((Session.route_request nat_floats list_ring later (b ∷ []) rates headers end).1 ≡ some "b")
    ⊎ ((v : String) × ((Session.route_request nat_floats list_ring later
            (b ∷ [])
            rates
            headers
            end).1
          ≡ some v)
        × In v ("b" ∷ [])
        × (¬ In v ("b" ∷ "a" ∷ [])))
route_request_sticky_example =
    Session.route_request_sticky nat_floats list_ring nat_floats-IsOrdered list_ring-IsRing sessions
      (b ∷ a ∷ []) (b ∷ []) rates rates headers headers end end (Value.str "u1") "b" session_id
      session_id session_run (inl refl)

-- prefill and decode

abbrev stages : DisaggregatedPrefill
stages = record {
  prefill_model_labels = some ("prefill" ∷ []);
  decode_model_labels = some ("decode" ∷ []);
}

abbrev prefill_request : Fields
prefill_request = field "max_tokens" (Value.num 1) end

route_request-IsStage_example :
    ((prefill decode labels : List String) × (stages.prefill_model_labels ≡ some prefill)
      × (stages.decode_model_labels ≡ some decode)
      × IsStage prefill decode prefill_request labels
      × IsFirst labels
          (a ∷ b ∷ [])
          (Disaggregated.route_request stages (a ∷ b ∷ []) prefill_request))
    ⊎ (((stages.prefill_model_labels ≡ none) ⊎ (stages.decode_model_labels ≡ none))
        × (Disaggregated.route_request stages (a ∷ b ∷ []) prefill_request ≡ none))
route_request-IsStage_example =
    Disaggregated.route_request-IsStage stages (a ∷ b ∷ []) prefill_request

-- prefixes

first_of_all : (n : ℕ) → 0 < n → 0 < n
first_of_all n h = h

prefix_run :
    (route_prompt digest
      (λ n. 0)
      (insert_all digest 2 (new_trie 2) past)
      (b ∷ a ∷ [])
      (1 ∷ 2 ∷ 5 ∷ [])).1
    ≡ some "b"
unfolding route_prompt longest_prefix_match insert_all insert new_trie match_loop intersection
    chunk_and_hash descend child mem add to_set
prefix_run = refl

route_prompt-In_example :
    (u : String) × (route_prompt digest (λ n. 0) (new_trie 2) (b ∷ a ∷ []) (1 ∷ 2 ∷ 5 ∷ [])
      ≡ ((insert digest (new_trie 2) (1 ∷ 2 ∷ 5 ∷ []) u).0, some u))
    × In u ("b" ∷ "a" ∷ [])
unfolding new_trie
route_prompt-In_example =
    route_prompt-In digest 2 (omega arith) (λ n. 0) first_of_all (new_trie 2) b (a ∷ [])
      (1 ∷ 2 ∷ 5 ∷ []) refl

route_prompt_again_example :
    (matched : ℕ × List String) × (longest_prefix_match digest
        (route_prompt digest
          (λ n. 0)
          (insert_all digest 2 (new_trie 2) past)
          (b ∷ a ∷ [])
          (1 ∷ 2 ∷ 5 ∷ [])).0
        (1 ∷ 2 ∷ 5 ∷ [])
        (to_set ("b" ∷ []))
      ≡ some matched)
    × (matched.0 ≡ length (hashes digest 2 (1 ∷ 2 ∷ 5 ∷ [])) * 2)
    × (mem "b" matched.1 ≡ true)
route_prompt_again_example =
    route_prompt_again digest 2 (omega arith) (λ n. 0) first_of_all past b (a ∷ []) (b ∷ [])
      (1 ∷ 2 ∷ 5 ∷ []) "b" prefix_run (inl refl)
