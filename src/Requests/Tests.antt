-- ===== src/Requests/Tests.antt =====
-- Requests over the engines of a Kubernetes discovery, routed by session.
use vllm_production_stack_cu.Base.{
  String, ◌≡◌, refl, Bool, true, false, Option, none, some, List, [], ◌∷◌, In, inl, string_eq,
}
use vllm_production_stack_cu.Base.Dict.{get, put, mem}
use vllm_production_stack_cu.Base.Floats.{nat_floats, nat_floats-IsOrdered}
use vllm_production_stack_cu.Base.Json.{Value, Fields, end, field, find}
use vllm_production_stack_cu.Discovery.{EndpointInfo}
use vllm_production_stack_cu.Discovery.Kubernetes.{
  EventType, PodEvent, Clients, Discovery, new_discovery, check_pod_ready, check_engine_sleep_mode,
  get_endpoint_info, is_pod_ready, endpoint_of, add_engine, on_engine_update, watch_event,
  watch_engines, added, deleted,
}
use vllm_production_stack_cu.Discovery.Kubernetes.Pods.{entry, get-watch_engines}
use vllm_production_stack_cu.Discovery.Kubernetes.Known.{
  IsKnown, IsKnownDuring, seen_state, watch_engines-IsKnown,
}
use vllm_production_stack_cu.Routing.Ring.Sample.{list_ring, list_ring-IsRing}
use vllm_production_stack_cu.Routing.Session
use vllm_production_stack_cu.Routing.Session.{SessionRouter}
use vllm_production_stack_cu.Requests.{route_general_request}
use vllm_production_stack_cu.Requests.Serving.{resolved, resolved_body, IsServed}
use vllm_production_stack_cu.Requests.Outcome.{
  IsRemembered, kubernetes, IsRouter, route_general_request-IsServed,
  route_general_request-IsRemembered,
}

abbrev uuid5 : String → String
uuid5 name = name

abbrev url : String → String → String
url ip port = ip

-- an event of a pod that serves the model "m" at the given address
abbrev pod_event : EventType → String → String → PodEvent
pod_event event_type name ip = record {
  event_type = event_type;
  pod_name = name;
  pod_ip = some ip;
  container_statuses = true ∷ [];
  terminating = false;
  label = none;
  model_names = "m" ∷ [];
  model_info = [];
  containers = none;
  is_sleeping = none;
  now = 7;
  loop_running = true;
}

abbrev clients : Clients
clients = record { prefill_client = none; decode_client = none }

abbrev start : Discovery
start = new_discovery "default" "8000" none none clients

abbrev events : List PodEvent
events = pod_event added "p" "10.0.0.1" ∷ pod_event added "q" "10.0.0.2" ∷ []

abbrev endpoint : String → String → EndpointInfo
endpoint name ip =
    endpoint_of uuid5 url "default" "8000" (pod_event added name ip) ip ("m" ∷ []) none

watch_run :
    get_endpoint_info (watch_engines uuid5 url start events)
    ≡ endpoint "p" "10.0.0.1" ∷ endpoint "q" "10.0.0.2" ∷ []
unfolding get_endpoint_info watch_engines watch_event on_engine_update add_engine is_pod_ready
    check_pod_ready put new_discovery endpoint_of check_engine_sleep_mode
watch_run = refl

get-watch_engines_example :
    get "p" (watch_engines uuid5 url start events).available_engines
    ≡ entry uuid5 url "default" "8000" "p" events (get "p" start.available_engines)
unfolding new_discovery
get-watch_engines_example = get-watch_engines uuid5 url "default" "8000" start events "p" refl refl

watch_engines-IsKnown_example :
    IsKnown (watch_engines uuid5 url start events)
    × ((ev : PodEvent) → IsKnownDuring uuid5 url (watch_engines uuid5 url start events) ev)
watch_engines-IsKnown_example =
    watch_engines-IsKnown uuid5 url "default" "8000" none none clients events

abbrev sessions : SessionRouter nat_floats list_ring
sessions = record { session_key = "x-user-id"; hash_ring = [] }

abbrev headers : String → Option String
headers name = some "u1"

abbrev router : List EndpointInfo → Fields → Option String
router es json = (Session.route_request nat_floats list_ring sessions es [] headers json).1

router-IsRouter : IsRouter router
router-IsRouter x xs json =
    Session.route_request-In nat_floats list_ring nat_floats-IsOrdered list_ring-IsRing sessions x
      xs [] headers json

abbrev keep : Fields → Option Fields
keep json = some json

abbrev silent : Fields → Bool
silent json = false

abbrev body : Fields
body = field "model" (Value.str "m") end

body_model : find "model" body ≡ some (Value.str "m")
unfolding find
body_model = refl

route_general_request-IsServed_example :
    IsServed
      (kubernetes (watch_engines uuid5 url start events))
      none
      (resolved (kubernetes (watch_engines uuid5 url start events)) "m")
      (resolved_body (kubernetes (watch_engines uuid5 url start events)) "m" body)
      (route_general_request router false silent keep
        (kubernetes (watch_engines uuid5 url start events))
        none
        body)
route_general_request-IsServed_example =
    route_general_request-IsServed router silent keep
      (kubernetes (watch_engines uuid5 url start events)) none body body "m" router-IsRouter refl
      body_model refl

abbrev gone : List PodEvent
gone = pod_event deleted "p" "10.0.0.1" ∷ pod_event deleted "q" "10.0.0.2" ∷ []

offered : In (endpoint "p" "10.0.0.1") (get_endpoint_info (watch_engines uuid5 url start events))
offered = rw watch_run (inl refl)

has_m : mem "m" (endpoint "p" "10.0.0.1").model_names ≡ true
unfolding mem endpoint_of
has_m = refl

route_general_request-IsRemembered_example :
    IsRemembered
      (kubernetes (
        seen_state uuid5 url
          (watch_engines uuid5 url (watch_engines uuid5 url start events) gone)
          (some (pod_event added "p" "10.0.0.1"))))
      "m"
      body
      (route_general_request router false silent keep
        (kubernetes (
          seen_state uuid5 url
            (watch_engines uuid5 url (watch_engines uuid5 url start events) gone)
            (some (pod_event added "p" "10.0.0.1"))))
        none
        body)
route_general_request-IsRemembered_example =
    route_general_request-IsRemembered router uuid5 url silent keep "default" "8000" none none
      clients events gone (some (pod_event added "p" "10.0.0.1")) (endpoint "p" "10.0.0.1") body
      body "m" router-IsRouter offered has_m refl body_model refl
