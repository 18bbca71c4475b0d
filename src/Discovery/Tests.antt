-- ===== src/Discovery/Tests.antt =====
-- The discoveries by a static list and by services at small inputs.
use vllm_production_stack_cu.Base.{
  zero, suc, String, ◌≡◌, refl, Bool, none, some, List, [], ◌∷◌, In, ◌==◌, string_eq, arith,
}
use vllm_production_stack_cu.Base.Dict.{mem}
use vllm_production_stack_cu.Discovery.{EndpointInfo}
use vllm_production_stack_cu.Discovery.Static.{
  StaticDiscovery, label_at, check_loop, check_model_health, static_endpoint,
  get_unhealthy_endpoint_hashes, get_endpoint_info, endpoint_loop, endpoint_at,
}
use vllm_production_stack_cu.Base.Dict.{get, put, remove}
use vllm_production_stack_cu.Discovery.Kubernetes.{EventType, added, deleted}
use vllm_production_stack_cu.Discovery.Services.{
  PodLookup, ServiceEvent, ServiceDiscovery, check_service_ready, check_service_sleep_mode,
  service_endpoint, add_service, delete_service, on_service_update, watch_service, watch_services,
}
use vllm_production_stack_cu.Discovery.Services.Entries.{service_entry, get-watch_services}
use vllm_production_stack_cu.Discovery.Static.Health.{
  IsHealthy, IsFilled, get_endpoint_info-IsHealthy,
}

abbrev md5 : String → String → String
md5 url model = url

-- only the engine "a" answers
abbrev answers : String → String → String → Bool
answers url model model_type = url == "a"

abbrev two : StaticDiscovery
two = record {
  urls = "b" ∷ "a" ∷ [];
  models = "m" ∷ "m" ∷ [];
  aliases = none;
  model_labels = none;
  model_types = some ("chat" ∷ "chat" ∷ []);
  engines_id = "1" ∷ "2" ∷ [];
  added_timestamp = 3;
  unhealthy_endpoint_hashes = [];
}

health_run :
    get_endpoint_info md5 answers (check_model_health md5 answers two) 5
    ≡ some (static_endpoint 3 5 "a" "m" "default" "2" ∷ [])
unfolding get_endpoint_info endpoint_loop endpoint_at check_model_health check_loop label_at mem
    get_unhealthy_endpoint_hashes
health_run = refl

two-IsFilled : IsFilled md5 answers two 2
unfolding label_at
two-IsFilled zero lt = (("default", refl), ("1", refl))
two-IsFilled (suc zero) lt = (("default", refl), ("2", refl))
two-IsFilled (suc (suc i)) lt = absurd (omega arith)

get_endpoint_info-IsHealthy_example :
    (es : List EndpointInfo) × (get_endpoint_info md5 answers (check_model_health md5 answers two) 5
      ≡ some es)
    × ((e : EndpointInfo)
        → In e es
        → IsHealthy md5 answers e ("b" ∷ "a" ∷ []) ("m" ∷ "m" ∷ []) ("chat" ∷ "chat" ∷ []))
get_endpoint_info-IsHealthy_example =
    get_endpoint_info-IsHealthy md5 answers two 5 ("chat" ∷ "chat" ∷ []) refl refl refl two-IsFilled

-- an event of a service with one address
abbrev service_event : EventType → String → ServiceEvent
service_event event_type name = record {
  event_type = event_type;
  service_name = name;
  subsets = some (("10.0.0.1" ∷ []) ∷ []);
  label = none;
  model_names = "m" ∷ [];
  model_info = [];
  pods = PodLookup.no_pods;
  is_sleeping = none;
  now = 7;
}

abbrev service_url : String → String → String
service_url name port = name

abbrev service_id : String → String
service_id name = name

abbrev nothing : ServiceDiscovery
nothing = record { namespace = "default"; port = "8000"; available_engines = [] }

abbrev service_events : List ServiceEvent
service_events = service_event added "s" ∷ service_event added "t" ∷ service_event deleted "s" ∷ []

services_run :
    get "s" (watch_services service_id service_url nothing service_events).available_engines ≡ none
unfolding watch_services watch_service on_service_update add_service delete_service
    check_service_ready service_endpoint check_service_sleep_mode put get remove
services_run = refl

get-watch_services_example :
    get "t" (watch_services service_id service_url nothing service_events).available_engines
    ≡ service_entry service_id service_url "default" "8000" "t" service_events none
unfolding get
get-watch_services_example =
    get-watch_services service_id service_url "default" "8000" nothing service_events "t" refl refl
