-- ===== src/Config/Watcher.antt =====
-- `DynamicConfigWatcher` of src/vllm_router/dynamic_config.py, with `reconfigure_service_discovery`
-- of src/vllm_router/service_discovery.py: a file is read again and again, and what it says is put
-- in the place of the router's parts.
pub mod Settings
pub mod Sync
pub mod Turn
mod Tests
use vllm_production_stack_cu.Base.{
  ℕ, String, ◌≡◌, refl, Bool, true, false, Option, none, some, List, [], ◌∷◌, map, is_empty, ◌==◌,
  string_eq, if◌then◌else◌, Bool-cases, inl, inr, arith,
}
use mathlib.Core.Option
use mathlib.Core.Logic.{ite}
use native.Mathlib.Decide.{ℕ_discrete}
use vllm_production_stack_cu.Base.Dict.{Dict, put}
use vllm_production_stack_cu.Base.Floats.{Floats}
use vllm_production_stack_cu.Config.{split, comma, parse_comma_separated_args, parse_static_urls}
use vllm_production_stack_cu.Discovery.Static.{StaticDiscovery, new_static}
use vllm_production_stack_cu.Discovery.Kubernetes
use vllm_production_stack_cu.Discovery.Kubernetes.{Clients, new_discovery}
use vllm_production_stack_cu.Routing.Ring.{HashRing}
use vllm_production_stack_cu.Routing.KvAware.{Services}
use vllm_production_stack_cu.Routing.Registry.{
  Arguments, Router, Registry, reconfigure_routing_logic, get_routing_logic, new_router,
}
use vllm_production_stack_cu.Config.Watcher.Settings.{
  Text, DynamicRouterConfig, parse_static_aliases, aliases_of, texts, config_discrete,
}

pub data ServiceDiscovery : Type 0 where
  static : StaticDiscovery → ServiceDiscovery
  k8s : Kubernetes.Discovery → ServiceDiscovery

-- what the constructors read: identifiers for the urls, the time, whether a configuration of the
-- cluster can be loaded, and the client sessions at the start
pub record Moment : Type 0 where
  pub uuids : List String
  pub now : ℕ
  pub kube_config : Bool
  pub clients : Clients

-- in an f-string
abbrev pub shown : Option String → String
shown none = "None"
shown (some s) = s

module _ (string : Text → String) (validate_url : Text → Bool) where
  unfoldable pub create_static : Moment → DynamicRouterConfig → Option ServiceDiscovery
  unfolding aliases_of
  create_static m c = elim c.static_backends [
    | none ↦ none
    | some backends ↦ elim (texts string (parse_comma_separated_args c.static_models)) [
      | none ↦ none
      | some models ↦ elim (aliases_of string c.static_aliases) [
        | none ↦ none
        | some aliases ↦ Option.map static (
            new_static (map string (parse_static_urls validate_url backends)) models aliases
              (texts string (parse_comma_separated_args c.static_model_labels))
              (texts string (parse_comma_separated_args c.static_model_types)) m.uuids m.now)
      ]
    ]
  ]

  unfoldable pub create_k8s : Moment → DynamicRouterConfig → Option ServiceDiscovery
  create_k8s m c =
      if m.kube_config
      then some (
          k8s (
            new_discovery (shown c.k8s_namespace) (shown c.k8s_port)
              (texts string (parse_comma_separated_args c.prefill_model_labels))
              (texts string (parse_comma_separated_args c.decode_model_labels)) m.clients))
      else none

  -- the discovery that a configuration asks for, `none` for an exception
  unfoldable pub create_service_discovery : Moment → DynamicRouterConfig → Option ServiceDiscovery
  unfolding create_static create_k8s
  create_service_discovery m c =
      if c.service_discovery == "static"
      then create_static m c
      else if c.service_discovery == "k8s"
      then create_k8s m c
      else none

  -- `load_callbacks` imports the callbacks by their name, `none` if that raises.
  module _ (fl : Floats) (h : HashRing) (s : Services) (controller : Bool) (chunk_size : ℕ)
      (load_callbacks : String → Option String) where
    -- the configuration of the watcher, the global discovery, the registry of the routers, and the
    -- router and the callbacks of the app
    pub record App : Type 0 where
      pub current_config : DynamicRouterConfig
      pub discovery : Option ServiceDiscovery
      pub instances : Registry fl h s
      pub router : Option (Router fl h s)
      pub callbacks : Option String

    unfoldable pub arguments : DynamicRouterConfig → Arguments
    arguments c = record {
      session_key = c.session_key;
      kv_aware_threshold = none;
      prefill_model_labels = none;
      decode_model_labels = none;
    }

    -- `none` is an exception, before anything is changed.
    unfoldable pub reconfigure_service_discovery : Moment → DynamicRouterConfig → App → Option App
    reconfigure_service_discovery m c a = elim a.discovery [
      | none ↦ none
      | some old ↦ elim (create_service_discovery m c) [
        | none ↦ none
        | some d ↦ some (record a { discovery = some d })
      ]
    ]

    -- the app, and whether the call came to its end
    unfoldable pub reconfigure_router : DynamicRouterConfig → App → App × Bool
    unfolding arguments
    reconfigure_router c a =
        let (instances, made) =
          reconfigure_routing_logic fl h s controller chunk_size a.instances c.routing_logic
            (arguments c) in
        elim made [
          | none ↦ (record a { instances = instances }, false)
          | some r ↦ (record a { instances = instances; router = some r }, true)
        ]

    -- the callbacks that a configuration asks for, `none` for an exception
    unfoldable pub callbacks_for : DynamicRouterConfig → Option (Option String)
    callbacks_for c = elim c.callbacks [
      | none ↦ some none
      | some name ↦
          if name == ""
          then some none
          else (elim (load_callbacks name) [ none ↦ none | some l ↦ some (some l) ])
    ]

    unfoldable pub reconfigure_callbacks : DynamicRouterConfig → App → App × Bool
    unfolding callbacks_for
    reconfigure_callbacks c a = elim (callbacks_for c) [
      | none ↦ (a, false)
      | some callbacks ↦ (record a { callbacks = callbacks }, true)
    ]

    unfoldable pub reconfigure_all : Moment → DynamicRouterConfig → App → App × Bool
    unfolding reconfigure_service_discovery reconfigure_router reconfigure_callbacks
    reconfigure_all m c a = elim (reconfigure_service_discovery m c a) [
      | none ↦ (a, false)
      | some a' ↦
          let (a'', routed) = reconfigure_router c a' in
          if routed then reconfigure_callbacks c a'' else (a'', false)
    ]

    -- one turn of `_watch_worker`: the file is read as a configuration, `none` for an exception
    unfoldable pub watch_turn : Moment → Option DynamicRouterConfig → App → App
    unfolding reconfigure_all
    watch_turn m none a = a
    watch_turn m (some c) a = ite (config_discrete c a.current_config) a (
        let (a', complete) = reconfigure_all m c a in
        if complete then record a' { current_config = c } else a')
