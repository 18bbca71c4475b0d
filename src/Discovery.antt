-- ===== src/Discovery.antt =====
-- The data classes of src/vllm_router/service_discovery.py: what the router knows of the serving
-- engines, and the queries on it. The children hold a static list of
-- engines and follow the pods or the services of a Kubernetes namespace.
pub mod Kubernetes
pub mod Static
pub mod Services
pub mod Labels
pub mod Models
mod Tests
use vllm_production_stack_cu.Base.{
  ℕ, String, Bool, false, not, Option, none, some, List, [], map, filter, ◌==◌, string_eq,
}
use vllm_production_stack_cu.Base.Dict.{Dict, get, mem}

pub record ModelInfo : Type 0 where
  pub id : String
  pub object : String
  pub created : ℕ
  pub owned_by : String
  pub root : Option String
  pub parent : Option String
  pub is_adapter : Bool

pub record EndpointInfo : Type 0 where
  pub url : String
  pub model_names : List String
  pub id : String
  pub added_timestamp : ℕ
  pub model_label : Option String
  pub sleep : Bool
  pub pod_name : Option String
  pub service_name : Option String
  pub namespace : Option String
  pub model_info : Option (Dict String ModelInfo)

-- bool(info.parent): a text is true if it is not empty
unfoldable pub has_parent : ModelInfo → Bool
has_parent info = elim info.parent [ none ↦ false | some p ↦ not (p == "") ]

-- `None` and the empty dict alike have no models.
abbrev pub infos : EndpointInfo → Dict String ModelInfo
infos e = elim e.model_info [ none ↦ [] | some d ↦ d ]

unfoldable pub get_base_models : EndpointInfo → List String
unfolding has_parent
get_base_models e = map (λ p. p.0) (filter (λ p. not (has_parent p.1)) (infos e))

unfoldable pub get_adapters : EndpointInfo → List String
unfolding has_parent
get_adapters e = map (λ p. p.0) (filter (λ p. has_parent p.1) (infos e))

unfoldable pub get_adapters_for_model : EndpointInfo → String → List String
get_adapters_for_model e base_model =
    map (λ p. p.0)
      (filter (λ p. elim p.1.parent [ none ↦ false | some q ↦ q == base_model ]) (infos e))

unfoldable pub has_model : EndpointInfo → String → Bool
has_model e model_id = mem model_id e.model_names

unfoldable pub get_model_info : EndpointInfo → String → Option ModelInfo
get_model_info e model_id = get model_id (infos e)

abbrev pub urls : List EndpointInfo → List String
urls endpoints = map (λ e. e.url) endpoints
