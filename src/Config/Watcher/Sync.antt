-- ===== src/Config/Watcher/Sync.antt =====
-- The ways in which a turn of the watcher ends.
use vllm_production_stack_cu.Base.{
  ℕ, String, ◌≡◌, ◌≢◌, refl, ap, ◌∙◌, Bool, true, false, Option, none, some, string_eq,
  if◌then◌else◌,
}
use mathlib.Core.Logic.{if_pos, if_neg}
use vllm_production_stack_cu.Base.Floats.{Floats}
use vllm_production_stack_cu.Routing.Ring.{HashRing}
use vllm_production_stack_cu.Routing.KvAware.{Services}
use vllm_production_stack_cu.Routing.Registry.{
  Router, Registry, reconfigure_routing_logic, get_routing_logic, new_router,
}
use vllm_production_stack_cu.Routing.Registry.Fresh.{reconfigure_routing_logic-IsNew}
use vllm_production_stack_cu.Config.Watcher.Settings.{Text, DynamicRouterConfig, config_discrete}
use vllm_production_stack_cu.Config.Watcher.{
  ServiceDiscovery, Moment, create_service_discovery, App, arguments, reconfigure_service_discovery,
  reconfigure_router, callbacks_for, reconfigure_callbacks, reconfigure_all, watch_turn,
}

module _ (string : Text → String) (validate_url : Text → Bool) where
  module _ (fl : Floats) (h : HashRing) (s : Services) (controller : Bool) (chunk_size : ℕ)
      (load_callbacks : String → Option String) where
    abbrev pub CurrentApp : Type 0
    CurrentApp = App string validate_url fl h s controller chunk_size load_callbacks

    abbrev pub turn : Moment → Option DynamicRouterConfig → CurrentApp → CurrentApp
    turn = watch_turn string validate_url fl h s controller chunk_size load_callbacks

    abbrev pub discovery_for : Moment → DynamicRouterConfig → Option ServiceDiscovery
    discovery_for = create_service_discovery string validate_url

    abbrev pub router_for : DynamicRouterConfig → Option (Router fl h s)
    router_for c =
        new_router fl h s controller chunk_size c.routing_logic
          (arguments string validate_url fl h s controller chunk_size load_callbacks c)

    abbrev pub registered : CurrentApp → Option (Router fl h s)
    registered a = get_routing_logic fl h s controller chunk_size a.instances

    abbrev pub callbacks_of : DynamicRouterConfig → Option (Option String)
    callbacks_of = callbacks_for string validate_url fl h s controller chunk_size load_callbacks

    -- the instances after a reconfiguration of the routers
    abbrev pub renewed : DynamicRouterConfig → CurrentApp → Registry fl h s
    renewed c a =
        (reconfigure_routing_logic fl h s controller chunk_size a.instances c.routing_logic
          (arguments string validate_url fl h s controller chunk_size load_callbacks c)).0

    pub renewed-registered :
        (c : DynamicRouterConfig) (a : CurrentApp)
        → get_routing_logic fl h s controller chunk_size (renewed c a) ≡ router_for c
    renewed-registered c a =
        (reconfigure_routing_logic-IsNew fl h s controller chunk_size a.instances c.routing_logic
          (arguments string validate_url fl h s controller chunk_size load_callbacks c)).0

    router-made :
        (c : DynamicRouterConfig) (a : CurrentApp) (r : Router fl h s)
        → router_for c ≡ some r
        → reconfigure_router string validate_url fl h s controller chunk_size load_callbacks c a
          ≡ (record a { instances = renewed c a; router = some r }, true)
    unfolding reconfigure_router
    router-made c a r e =
        let made =
          (reconfigure_routing_logic-IsNew fl h s controller chunk_size a.instances c.routing_logic
            (arguments string validate_url fl h s controller chunk_size load_callbacks c)).1
          ∙ e in
        rw (reconfigure_router, made) refl

    router-failed :
        (c : DynamicRouterConfig) (a : CurrentApp)
        → router_for c ≡ none
        → reconfigure_router string validate_url fl h s controller chunk_size load_callbacks c a
          ≡ (record a { instances = renewed c a }, false)
    unfolding reconfigure_router
    router-failed c a e =
        let made =
          (reconfigure_routing_logic-IsNew fl h s controller chunk_size a.instances c.routing_logic
            (arguments string validate_url fl h s controller chunk_size load_callbacks c)).1
          ∙ e in
        rw (reconfigure_router, made) refl

    -- the end of a turn with a changed configuration
    abbrev finish : DynamicRouterConfig → CurrentApp × Bool → CurrentApp
    finish c (a, complete) = if complete then record a { current_config = c } else a

    changed-turn :
        (m : Moment) (c : DynamicRouterConfig) (a : CurrentApp)
        → c ≢ a.current_config
        → turn m (some c) a
          ≡ finish c (
              reconfigure_all string validate_url fl h s controller chunk_size load_callbacks m c a)
    unfolding watch_turn
    changed-turn m c a differs = if_neg (config_discrete c a.current_config) differs _ _

    pub same-turn :
        (m : Moment) (c : DynamicRouterConfig) (a : CurrentApp)
        → c ≡ a.current_config
        → turn m (some c) a ≡ a
    unfolding watch_turn
    same-turn m c a same = if_pos (config_discrete c a.current_config) same _ _

    -- what follows the routers
    abbrev after_router : DynamicRouterConfig → CurrentApp × Bool → CurrentApp × Bool
    after_router c (a, routed) =
        if routed
        then reconfigure_callbacks string validate_url fl h s controller chunk_size load_callbacks c
            a
        else (a, false)

    callbacks-made :
        (c : DynamicRouterConfig) (a : CurrentApp) (callbacks : Option String)
        → callbacks_of c ≡ some callbacks
        → reconfigure_callbacks string validate_url fl h s controller chunk_size load_callbacks c a
          ≡ (record a { callbacks = callbacks }, true)
    unfolding reconfigure_callbacks
    callbacks-made c a callbacks e = rw (reconfigure_callbacks, e) refl

    callbacks-failed :
        (c : DynamicRouterConfig) (a : CurrentApp)
        → callbacks_of c ≡ none
        → reconfigure_callbacks string validate_url fl h s controller chunk_size load_callbacks c a
          ≡ (a, false)
    unfolding reconfigure_callbacks
    callbacks-failed c a e = rw (reconfigure_callbacks, e) refl

    routed-turn :
        (m : Moment) (c : DynamicRouterConfig) (a : CurrentApp) (old d : ServiceDiscovery)
        → a.discovery ≡ some old
        → discovery_for m c ≡ some d
        → reconfigure_all string validate_url fl h s controller chunk_size load_callbacks m c a
          ≡ after_router c (
              reconfigure_router string validate_url fl h s controller chunk_size load_callbacks c
                (record a { discovery = some d }))
    unfolding reconfigure_all reconfigure_service_discovery
    routed-turn m c a old d e f = rw (reconfigure_all, e, f) refl

    -- a turn after which all parts are new
    pub complete-turn :
        (m : Moment) (c : DynamicRouterConfig) (a : CurrentApp) (old d : ServiceDiscovery)
        → (r : Router fl h s) (callbacks : Option String) → c ≢ a.current_config
        → a.discovery ≡ some old
        → discovery_for m c ≡ some d
        → router_for c ≡ some r
        → callbacks_of c ≡ some callbacks
        → turn m (some c) a ≡ record {
          current_config = c;
          discovery = some d;
          instances = renewed c a;
          router = some r;
          callbacks = callbacks;
        }
    complete-turn m c a old d r callbacks differs e f g k =
        changed-turn m c a differs
        ∙ ap (finish c) (
            routed-turn m c a old d e f
            ∙ ap (after_router c) (router-made c (record a { discovery = some d }) r g)
            ∙ callbacks-made c
                (record a { discovery = some d; instances = renewed c a; router = some r })
                callbacks k)

    -- a turn that stops after the discovery
    pub router-turn :
        (m : Moment) (c : DynamicRouterConfig) (a : CurrentApp) (old d : ServiceDiscovery)
        → c ≢ a.current_config
        → a.discovery ≡ some old
        → discovery_for m c ≡ some d
        → router_for c ≡ none
        → turn m (some c) a ≡ record a { discovery = some d; instances = renewed c a }
    router-turn m c a old d differs e f g =
        changed-turn m c a differs
        ∙ ap (finish c) (
            routed-turn m c a old d e f
            ∙ ap (after_router c) (router-failed c (record a { discovery = some d }) g))

    -- a turn that stops at the callbacks
    pub callbacks-turn :
        (m : Moment) (c : DynamicRouterConfig) (a : CurrentApp) (old d : ServiceDiscovery)
        (r : Router fl h s)
        → c ≢ a.current_config
        → a.discovery ≡ some old
        → discovery_for m c ≡ some d
        → router_for c ≡ some r
        → callbacks_of c ≡ none
        → turn m (some c) a
          ≡ record a { discovery = some d; instances = renewed c a; router = some r }
    callbacks-turn m c a old d r differs e f g k =
        changed-turn m c a differs
        ∙ ap (finish c) (
            routed-turn m c a old d e f
            ∙ ap (after_router c) (router-made c (record a { discovery = some d }) r g)
            ∙ callbacks-failed c
                (record a { discovery = some d; instances = renewed c a; router = some r }) k)

    -- a turn that stops at the discovery
    pub discovery-turn :
        (m : Moment) (c : DynamicRouterConfig) (a : CurrentApp)
        → c ≢ a.current_config
        → reconfigure_service_discovery string validate_url fl h s controller chunk_size
            load_callbacks m c a
          ≡ none
        → turn m (some c) a ≡ a
    unfolding reconfigure_all
    discovery-turn m c a differs e = rw (changed-turn m c a differs, reconfigure_all, e) refl
