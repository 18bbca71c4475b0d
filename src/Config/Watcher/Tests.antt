-- ===== src/Config/Watcher/Tests.antt =====
-- A router with one static engine that is set to another routing logic, and to one that does not exist.
use vllm_production_stack_cu.Base.{
  String, ◌≡◌, ◌≢◌, refl, ap, Bool, true, false, Option, none, some, [], ◌∷◌, ◌⊎◌, string_eq,
}
use vllm_production_stack_cu.Base.Floats.{nat_floats}
use vllm_production_stack_cu.Discovery.Static.{StaticDiscovery, new_static}
use vllm_production_stack_cu.Routing.Ring.Sample.{list_ring}
use vllm_production_stack_cu.Routing.KvAware.{Services}
use vllm_production_stack_cu.Routing.RoundRobin.{new_round_robin}
use vllm_production_stack_cu.Routing.Registry.{round_robin, new_router}
use vllm_production_stack_cu.Config.{split, parse_static_urls, parse_comma_separated_args}
use vllm_production_stack_cu.Config.Watcher.Settings.{Text, DynamicRouterConfig}
use vllm_production_stack_cu.Config.Watcher.{
  static, Moment, App, create_service_discovery, arguments,
}
use vllm_production_stack_cu.Config.Watcher.Turn.{
  IsApplied, IsInapplicable, next, back, registered_in, watch_turn-IsApplied, watch_turn_set_back,
}

abbrev no_services : Services
no_services = record {
  Tokenizer = String;
  from_pretrained = λ m. none;
  encode = λ t prompt. none;
  tokenize = λ url m prompt. none;
  lookup = λ tokens. none;
  query_instance = λ ip. none;
}

-- the texts of the engine are not looked at
abbrev to_text : Text → String
to_text t = "m"

abbrev valid : Text → Bool
valid t = true

abbrev no_callbacks : String → Option String
no_callbacks name = none

abbrev config : String → DynamicRouterConfig
config routing_logic = record {
  service_discovery = "static";
  routing_logic = routing_logic;
  static_backends = some (104 ∷ []);
  static_models = some (109 ∷ []);
  static_aliases = none;
  static_model_labels = none;
  static_model_types = none;
  static_backend_health_checks = some false;
  prefill_model_labels = none;
  decode_model_labels = none;
  k8s_port = none;
  k8s_namespace = none;
  k8s_label_selector = none;
  session_key = none;
  callbacks = none;
}

abbrev moment : Moment
moment = record {
  uuids = "e1" ∷ [];
  now = 7;
  kube_config = false;
  clients = record { prefill_client = none; decode_client = none };
}

abbrev discovery : StaticDiscovery
discovery = record {
  urls = "m" ∷ [];
  models = "m" ∷ [];
  aliases = none;
  model_labels = none;
  model_types = none;
  engines_id = "e1" ∷ [];
  added_timestamp = 7;
  unhealthy_endpoint_hashes = [];
}

abbrev app : App to_text valid nat_floats list_ring no_services false 128 no_callbacks
app = record {
  current_config = config "roundrobin";
  discovery = some (static discovery);
  instances = ("RoundRobinRouter", round_robin new_round_robin) ∷ [];
  router = some (round_robin new_round_robin);
  callbacks = none;
}

logic_differs :
    (l : String) → (string_eq.same l "roundrobin" ≡ false) → config l ≢ config "roundrobin"
logic_differs l e p =
    let q : l ≡ "roundrobin" = ap (λ (c : DynamicRouterConfig). c.routing_logic) p in
    let t : string_eq.same l "roundrobin" ≡ true = (string_eq.same_iff l "roundrobin").1 q in cc

watch_turn-IsApplied_example :
    IsApplied to_text valid nat_floats list_ring no_services false 128 no_callbacks moment
      (config "prefixaware")
      (next to_text valid nat_floats list_ring no_services false 128 no_callbacks moment
        (config "prefixaware")
        app)
    ⊎ (IsInapplicable to_text valid nat_floats list_ring no_services false 128 no_callbacks moment
          (config "prefixaware")
          app
        × ((next to_text valid nat_floats list_ring no_services false 128 no_callbacks moment
              (config "prefixaware")
              app).current_config
            ≡ config "roundrobin"))
watch_turn-IsApplied_example =
    watch_turn-IsApplied to_text valid nat_floats list_ring no_services false 128 no_callbacks
      moment (config "prefixaware") app (logic_differs "prefixaware" refl)

made : create_service_discovery to_text valid moment (config "roundrob") ≡ some (static discovery)
unfolding create_service_discovery parse_static_urls parse_comma_separated_args split new_static
made = refl

not_made :
    new_router nat_floats list_ring no_services false 128 "roundrob" (record {
      session_key = none;
      kv_aware_threshold = none;
      prefill_model_labels = none;
      decode_model_labels = none;
    })
    ≡ none
unfolding new_router
not_made = refl

abbrev set_back : App to_text valid nat_floats list_ring no_services false 128 no_callbacks
set_back =
    back to_text valid nat_floats list_ring no_services false 128 no_callbacks moment moment
      (config "roundrob") app

watch_turn_set_back_example :
    (set_back.discovery ≡ some (static discovery))
    × (registered_in to_text valid nat_floats list_ring no_services false 128 no_callbacks set_back
        ≡ none)
    × (set_back.router ≡ some (round_robin new_round_robin))
    × (set_back.current_config ≡ config "roundrobin")
    × (next to_text valid nat_floats list_ring no_services false 128 no_callbacks moment
          (config "roundrobin")
          set_back
        ≡ set_back)
unfolding arguments
watch_turn_set_back_example =
    watch_turn_set_back to_text valid nat_floats list_ring no_services false 128 no_callbacks moment
      moment moment (config "roundrob") app (static discovery) (static discovery)
      (logic_differs "roundrob" refl) refl made not_made
