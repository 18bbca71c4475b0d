-- ===== src/Discovery/Services.antt =====
-- `K8sServiceNameServiceDiscovery` of src/vllm_router/service_discovery.py: one engine for each
-- Kubernetes service. An event carries what the calls that its handler makes return.
pub mod Entries
use vllm_production_stack_cu.Base.{
  ℕ, String, Bool, true, false, ◌&&◌, ◌||◌, not, Option, none, some, List, [], ◌∷◌, map, is_empty,
  ◌==◌, string_eq, if◌then◌else◌,
}
use vllm_production_stack_cu.Base.Dict.{Dict, has, put, remove, mem}
use vllm_production_stack_cu.Discovery.{ModelInfo, EndpointInfo}
use vllm_production_stack_cu.Discovery.Kubernetes.{EventType, added, modified, deleted, other}

-- a container of the first pod behind the service; its command may be None
pub record ServiceContainer : Type 0 where
  pub name : String
  pub command : Option (List String)

-- what looking for the pods of the service gives: an ApiException; no selector or no pods; the
-- containers of the first pod
pub data PodLookup : Type 0 where
  api_error : PodLookup
  no_pods : PodLookup
  first_pod : List ServiceContainer → PodLookup

pub record ServiceEvent : Type 0 where
  pub event_type : EventType
  pub service_name : String
  -- the addresses of each subset of the service's endpoints, `none` for an ApiException
  pub subsets : Option (List (List String))
  pub label : Option String
  pub model_names : List String
  pub model_info : Dict String ModelInfo
  pub pods : PodLookup
  -- the answer to /is_sleeping as true or false, `none` for any exception
  pub is_sleeping : Option Bool
  pub now : ℕ

pub record ServiceDiscovery : Type 0 where
  pub namespace : String
  pub port : String
  pub available_engines : Dict String EndpointInfo

unfoldable pub new_service_discovery : String → String → ServiceDiscovery
new_service_discovery namespace port = record {
  namespace = namespace;
  port = port;
  available_engines = [];
}

-- Some subset has an address.
unfoldable pub check_service_ready : List (List String) → Bool
check_service_ready [] = false
check_service_ready (addresses ∷ subsets) =
    let rest = check_service_ready subsets in if is_empty addresses then rest else true

-- The loop over the containers, with `enable_sleep_mode`; `none` is the TypeError of a missing
-- command.
unfoldable pub service_sleep_loop : List ServiceContainer → Bool → Option Bool
service_sleep_loop [] enabled = some enabled
service_sleep_loop (c ∷ cs) enabled = elim (c.name == "vllm") [
  | false ↦ service_sleep_loop cs enabled
  | true ↦ elim c.command [
    | none ↦ none
    | some args ↦ service_sleep_loop cs (enabled || mem "--enable-sleep-mode" args)
  ]
]

unfoldable pub check_service_sleep_mode : PodLookup → Option Bool
unfolding service_sleep_loop
check_service_sleep_mode api_error = some false
check_service_sleep_mode no_pods = some false
check_service_sleep_mode (first_pod containers) = service_sleep_loop containers false

module _ (uuid5 : String → String) (url : String → String → String) where
  -- The endpoint that `_add_engine` makes, `none` for an exception on the way.
  unfoldable pub service_endpoint : String → String → ServiceEvent → Option EndpointInfo
  unfolding check_service_sleep_mode
  service_endpoint namespace port ev = elim (check_service_sleep_mode ev.pods) [
    | none ↦ none
    | some enabled ↦ some (record {
      url = url ev.service_name port;
      model_names = ev.model_names;
      id = uuid5 ev.service_name;
      added_timestamp = ev.now;
      model_label = ev.label;
      sleep =
          if enabled then (elim ev.is_sleeping [ none ↦ false | some sleep ↦ sleep ]) else false;
      pod_name = none;
      service_name = some ev.service_name;
      namespace = some namespace;
      model_info = some ev.model_info;
    })
  ]

  -- The handler's exceptions are caught around the loop: the table stays as it was.
  unfoldable pub add_service : ServiceDiscovery → ServiceEvent → ServiceDiscovery
  unfolding service_endpoint
  add_service d ev = elim (service_endpoint d.namespace d.port ev) [
    | none ↦ d
    | some e ↦ record d { available_engines = put ev.service_name e d.available_engines }
  ]

  -- `_delete_engine` under the test that the engine is there
  unfoldable pub delete_service : ServiceDiscovery → String → ServiceDiscovery
  delete_service d engine_name =
      if has engine_name d.available_engines
      then record d { available_engines = remove engine_name d.available_engines }
      else d

  -- `_on_engine_update` for a service with the given readiness; a service that is not ready has no
  -- model names.
  unfoldable pub on_service_update : ServiceDiscovery → ServiceEvent → Bool → ServiceDiscovery
  unfolding add_service delete_service
  on_service_update d ev ready =
      let serves = ready && not (is_empty ev.model_names) in
      elim ev.event_type [
        | added ↦ if not (ev.service_name == "") && serves then add_service d ev else d
        | modified ↦
            if ev.service_name == ""
            then d
            else (if serves then add_service d ev else delete_service d ev.service_name)
        | deleted ↦ delete_service d ev.service_name
        | other ↦ d
      ]

  -- the body of the loop of `_watch_engines`
  unfoldable pub watch_service : ServiceDiscovery → ServiceEvent → ServiceDiscovery
  unfolding on_service_update check_service_ready
  watch_service d ev = elim ev.event_type [
    | deleted ↦ delete_service d ev.service_name
    | _ ↦ elim ev.subsets [
      | none ↦ d
      | some subsets ↦ on_service_update d ev (check_service_ready subsets)
    ]
  ]

  unfoldable pub watch_services : ServiceDiscovery → List ServiceEvent → ServiceDiscovery
  unfolding watch_service
  watch_services d [] = d
  watch_services d (ev ∷ evs) = watch_services (watch_service d ev) evs
