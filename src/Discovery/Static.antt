-- ===== src/Discovery/Static.antt =====
-- `StaticServiceDiscovery` of src/vllm_router/service_discovery.py: engines from the command line.
pub mod Health
use vllm_production_stack_cu.Base.{
  ℕ, zero, suc, String, ◌≡◌, refl, sym, ap, ◌∙◌, subst, Bool, true, false, ◌||◌, Option, none, some,
  List, [], ◌∷◌, ◌++◌, is_empty, length, get_elem?, arith, eqb, ◌==◌, string_eq, if◌then◌else◌,
  Bool-cases, Option-cases, In, inl, inr, ◌⊎◌,
}
use vllm_production_stack_cu.Base.Dict.{Dict, mem, mem-In}
use vllm_production_stack_cu.Discovery.{ModelInfo, EndpointInfo}

pub record StaticDiscovery : Type 0 where
  pub urls : List String
  pub models : List String
  pub aliases : Option (Dict String String)
  pub model_labels : Option (List String)
  pub model_types : Option (List String)
  pub engines_id : List String
  pub added_timestamp : ℕ
  pub unhealthy_endpoint_hashes : List String

-- `uuids` are the identifiers drawn for the urls. `none` is the failed assertion.
unfoldable pub new_static :
    List String
    → List String
    → Option (Dict String String)
    → Option (List String)
    → Option (List String)
    → List String
    → ℕ
    → Option StaticDiscovery
new_static urls models aliases model_labels model_types uuids now =
    if eqb (length urls) (length models)
    then some (record {
      urls = urls;
      models = models;
      aliases = aliases;
      model_labels = model_labels;
      model_types = model_types;
      engines_id = uuids;
      added_timestamp = now;
      unhealthy_endpoint_hashes = [];
    })
    else none

-- `_get_model_info`, at the time `now`
unfoldable pub get_model_info : String → ℕ → Dict String ModelInfo
get_model_info model now =
    (
      model,
      record {
        id = model;
        object = "model";
        created = now;
        owned_by = "vllm";
        root = none;
        parent = none;
        is_adapter = false;
      },
    )
    ∷ []

-- `self.model_labels[i] if self.model_labels else "default"`, `none` for the IndexError
unfoldable pub label_at : Option (List String) → ℕ → Option String
label_at none i = some "default"
label_at (some labels) i = if is_empty labels then some "default" else get_elem? labels i

-- the EndpointInfo of `get_endpoint_info`
unfoldable pub static_endpoint : ℕ → ℕ → String → String → String → String → EndpointInfo
unfolding get_model_info
static_endpoint added now url model label id = record {
  url = url;
  model_names = model ∷ [];
  id = id;
  added_timestamp = added;
  model_label = some label;
  sleep = false;
  pod_name = none;
  service_name = none;
  namespace = none;
  model_info = some (get_model_info model now);
}

-- the assignment in `check_model_health`; an exception is logged and changes nothing
abbrev pub set_hashes : StaticDiscovery → Option (List String) → StaticDiscovery
set_hashes s none = s
set_hashes s (some hashes) = record s { unhealthy_endpoint_hashes = hashes }

-- `md5` is the digest of a url and a model, `is_model_healthy` the request to the engine.
module _ (md5 : String → String → String) (is_model_healthy : String → String → String → Bool) where
  -- the loop over `zip(..., strict=True)`, which ends with the ValueError at a shorter list
  unfoldable pub check_loop : List String → List String → List String → List String
  check_loop (url ∷ urls) (model ∷ models) (model_type ∷ types) =
      let rest = check_loop urls models types in
      if is_model_healthy url model model_type then rest else md5 url model ∷ rest
  check_loop _ _ _ = []

  -- `none` is the TypeError of a `model_types` that is None.
  unfoldable pub get_unhealthy_endpoint_hashes : StaticDiscovery → Option (List String)
  unfolding check_loop
  get_unhealthy_endpoint_hashes s = elim s.model_types [
    | none ↦ none
    | some types ↦ some (check_loop s.urls s.models types)
  ]

  -- one turn of `check_model_health`
  unfoldable pub check_model_health : StaticDiscovery → StaticDiscovery
  unfolding get_unhealthy_endpoint_hashes
  check_model_health s = set_hashes s (get_unhealthy_endpoint_hashes s)

  -- `none` is an IndexError; `now` is the time of the call.
  unfoldable pub endpoint_at : StaticDiscovery → ℕ → ℕ → String → String → Option EndpointInfo
  unfolding label_at static_endpoint
  endpoint_at s now i url model = elim (label_at s.model_labels i) [
    | none ↦ none
    | some label ↦ elim (get_elem? s.engines_id i) [
      | none ↦ none
      | some id ↦ some (static_endpoint s.added_timestamp now url model label id)
    ]
  ]

  -- the loop of `get_endpoint_info`, from the position `i`
  unfoldable pub endpoint_loop :
      StaticDiscovery → ℕ → ℕ → List String → List String → Option (List EndpointInfo)
  unfolding endpoint_at
  endpoint_loop s now i (url ∷ urls) (model ∷ models) =
      let rest = endpoint_loop s now (suc i) urls models in
      if mem (md5 url model) s.unhealthy_endpoint_hashes
      then rest
      else (elim (endpoint_at s now i url model) [
        | none ↦ none
        | some e ↦ elim rest [ none ↦ none | some es ↦ some (e ∷ es) ]
      ])
  endpoint_loop s now i _ _ = some []

  unfoldable pub get_endpoint_info : StaticDiscovery → ℕ → Option (List EndpointInfo)
  unfolding endpoint_loop
  get_endpoint_info s now = endpoint_loop s now 0 s.urls s.models
