-- ===== src/Routing/Registry/Tests.antt =====
-- A session router in the place of a round robin.
use vllm_production_stack_cu.Base.{String, ◌≡◌, false, none, some, [], ◌∷◌, string_eq}
use vllm_production_stack_cu.Base.Floats.{nat_floats}
use vllm_production_stack_cu.Routing.Ring.Sample.{list_ring}
use vllm_production_stack_cu.Routing.KvAware.{Services}
use vllm_production_stack_cu.Routing.RoundRobin.{new_round_robin}
use vllm_production_stack_cu.Routing.Registry.{
  Arguments, Registry, round_robin, new_router, get_routing_logic, reconfigure_routing_logic,
}
use vllm_production_stack_cu.Routing.Registry.Fresh.{reconfigure_routing_logic-IsNew}

abbrev no_services : Services
no_services = record {
  Tokenizer = String;
  from_pretrained = λ m. none;
  encode = λ t prompt. none;
  tokenize = λ url m prompt. none;
  lookup = λ tokens. none;
  query_instance = λ ip. none;
}

abbrev before : Registry nat_floats list_ring no_services
before = ("RoundRobinRouter", round_robin new_round_robin) ∷ []

abbrev by_user : Arguments
by_user = record {
  session_key = some "x-user-id";
  kv_aware_threshold = none;
  prefill_model_labels = none;
  decode_model_labels = none;
}

reconfigure_routing_logic-IsNew_example :
    (get_routing_logic nat_floats list_ring no_services false 128
        (reconfigure_routing_logic nat_floats list_ring no_services false 128 before "session"
          by_user).0
      ≡ new_router nat_floats list_ring no_services false 128 "session" by_user)
    × ((reconfigure_routing_logic nat_floats list_ring no_services false 128 before "session"
          by_user).1
        ≡ new_router nat_floats list_ring no_services false 128 "session" by_user)
reconfigure_routing_logic-IsNew_example =
    reconfigure_routing_logic-IsNew nat_floats list_ring no_services false 128 before "session"
      by_user
