-- ===== src/Routing/KvAware/Tests.antt =====
-- A prompt of three tokens that the instance "i1" has.
use vllm_production_stack_cu.Base.{
  ℕ, String, ◌≡◌, refl, false, Option, none, some, List, [], ◌∷◌, string_eq,
}
use vllm_production_stack_cu.Base.Dict.{get, put}
use vllm_production_stack_cu.Base.Floats.{nat_floats}
use vllm_production_stack_cu.Base.Json.{Value, Fields, end, field, find, find_or}
use vllm_production_stack_cu.Discovery.{EndpointInfo}
use vllm_production_stack_cu.Routing.Ring.Sample.{list_ring}
use vllm_production_stack_cu.Routing.KvAware.Address.{query_ip}
use vllm_production_stack_cu.Routing.KvAware.{
  Services, Layout, routed, KvawareRouter, token_ids_of, route_request, follow, learn, known_url,
}
use vllm_production_stack_cu.Routing.KvAware.Choice.{IsChosen, route_request-IsChosen}

abbrev engine : EndpointInfo
engine = record {
  url = "http://10.0.0.1:8000";
  model_names = "m" ∷ [];
  id = "e1";
  added_timestamp = 0;
  model_label = none;
  sleep = false;
  pod_name = none;
  service_name = none;
  namespace = none;
  model_info = none;
}

abbrev three_tokens : List ℕ
three_tokens = 1 ∷ 2 ∷ 3 ∷ []

abbrev at_i1 : Layout
at_i1 = ("i1", ("cpu", 3)) ∷ []

abbrev services : Services
services = record {
  Tokenizer = String;
  from_pretrained = λ m. some m;
  encode = λ t prompt. some three_tokens;
  tokenize = λ url m prompt. none;
  lookup = λ tokens. some at_i1;
  query_instance = λ ip. some "i1";
}

abbrev router : KvawareRouter nat_floats list_ring services
router = record {
  session_key = some "x-user-id";
  hash_ring = [];
  instance_id_to_ip = [];
  tokenizer = none;
  threshold = some 1;
}

abbrev no_headers : String → Option String
no_headers name = none

abbrev body : Fields
body = field "prompt" (Value.str "hi") end

follow_run :
    (route_request nat_floats list_ring services router (engine ∷ []) [] no_headers body).1
    ≡ routed (some "http://10.0.0.1:8000")
unfolding route_request follow learn known_url query_ip get put find
follow_run = refl

tokens_made :
    (token_ids_of nat_floats list_ring services router.tokenizer
      (engine ∷ [])
      (find_or "prompt" (Value.str "") body)).1
    ≡ some three_tokens
unfolding token_ids_of
tokens_made = refl

route_request-IsChosen_example :
    IsChosen nat_floats list_ring services router "x-user-id" 1
      (engine ∷ [])
      []
      no_headers
      body
      three_tokens
      at_i1
      (route_request nat_floats list_ring services router (engine ∷ []) [] no_headers body)
route_request-IsChosen_example =
    route_request-IsChosen nat_floats list_ring services router "x-user-id" 1 (engine ∷ []) []
      no_headers body three_tokens at_i1 refl refl tokens_made refl
