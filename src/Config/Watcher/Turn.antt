-- ===== src/Config/Watcher/Turn.antt =====
-- What one turn of the watcher leaves.
use vllm_production_stack_cu.Base.{
  ℕ, String, ◌≡◌, ◌≢◌, refl, subst, sym, ap, ◌∙◌, Bool, Option, none, some, string_eq, Option-cases,
  ◌⊎◌, inl, inr,
}
use vllm_production_stack_cu.Base.Floats.{Floats}
use vllm_production_stack_cu.Routing.Ring.{HashRing}
use vllm_production_stack_cu.Routing.KvAware.{Services}
use vllm_production_stack_cu.Routing.Registry.{Router}
use vllm_production_stack_cu.Config.Watcher.Settings.{Text, DynamicRouterConfig}
use vllm_production_stack_cu.Config.Watcher.{
  ServiceDiscovery, Moment, reconfigure_service_discovery,
}
use vllm_production_stack_cu.Config.Watcher.Sync.{
  CurrentApp, turn, discovery_for, router_for, registered, callbacks_of, renewed-registered,
  same-turn, complete-turn, router-turn, callbacks-turn, discovery-turn,
}

module _ (string : Text → String) (validate_url : Text → Bool) (fl : Floats) (h : HashRing)
    (s : Services) (controller : Bool) (chunk_size : ℕ)
    (load_callbacks : String → Option String) where
  abbrev pub Now : Type 0
  Now = CurrentApp string validate_url fl h s controller chunk_size load_callbacks

  abbrev pub next : Moment → DynamicRouterConfig → Now → Now
  next m c a = turn string validate_url fl h s controller chunk_size load_callbacks m (some c) a

  abbrev pub new_discovery_for : Moment → DynamicRouterConfig → Option ServiceDiscovery
  new_discovery_for = discovery_for string validate_url fl h s controller chunk_size load_callbacks

  abbrev pub new_router_for : DynamicRouterConfig → Option (Router fl h s)
  new_router_for = router_for string validate_url fl h s controller chunk_size load_callbacks

  abbrev pub new_callbacks_for : DynamicRouterConfig → Option (Option String)
  new_callbacks_for = callbacks_of string validate_url fl h s controller chunk_size load_callbacks

  abbrev pub registered_in : Now → Option (Router fl h s)
  registered_in = registered string validate_url fl h s controller chunk_size load_callbacks

  -- All parts are those that the configuration asks for.
  pub record IsApplied (m : Moment) (c : DynamicRouterConfig) (a : Now) : Type 0 where
    pub discovery :
        (d : ServiceDiscovery) × (new_discovery_for m c ≡ some d) × (a.discovery ≡ some d)
    pub router :
        (r : Router fl h s) × (new_router_for c ≡ some r)
        × (a.router ≡ some r)
        × (registered_in a ≡ some r)
    pub callbacks : new_callbacks_for c ≡ some a.callbacks
    pub current : a.current_config ≡ c

  -- A part cannot be made.
  abbrev pub IsInapplicable : Moment → DynamicRouterConfig → Now → Type 0
  IsInapplicable m c a =
      (a.discovery ≡ none)
      ⊎ ((new_discovery_for m c ≡ none)
          ⊎ ((new_router_for c ≡ none) ⊎ (new_callbacks_for c ≡ none)))

  no_discovery-turn :
      (m : Moment) (c : DynamicRouterConfig) (a : Now)
      → c ≢ a.current_config
      → (a.discovery ≡ none) ⊎ (new_discovery_for m c ≡ none)
      → next m c a ≡ a
  unfolding reconfigure_service_discovery
  no_discovery-turn m c a differs (inl e) =
      discovery-turn string validate_url fl h s controller chunk_size load_callbacks m c a differs
        (rw (reconfigure_service_discovery, e))
  no_discovery-turn m c a differs (inr e) = elim (Option-cases a.discovery) [
    | inl f ↦ no_discovery-turn' f
    | inr (old, f) ↦
        discovery-turn string validate_url fl h s controller chunk_size load_callbacks m c a differs
          (rw (reconfigure_service_discovery, f, e))
  ]
    where
      no_discovery-turn' : a.discovery ≡ none → next m c a ≡ a
      no_discovery-turn' f =
          discovery-turn string validate_url fl h s controller chunk_size load_callbacks m c a
            differs (rw (reconfigure_service_discovery, f))

  -- A turn that reads a changed configuration of which all parts can be made puts them all in place,
  -- the registered router being that of the app, and takes it for the current one; if a part cannot
  -- be made, the current configuration stays what it was.
  pub watch_turn-IsApplied :
      (m : Moment) (c : DynamicRouterConfig) (a : Now)
      → c ≢ a.current_config
      → IsApplied m c (next m c a)
        ⊎ (IsInapplicable m c a × ((next m c a).current_config ≡ a.current_config))
  watch_turn-IsApplied m c a differs = elim (Option-cases a.discovery) [
    | inl e ↦
        inr (inl e, ap (λ (x : Now). x.current_config) (no_discovery-turn m c a differs (inl e)))
    | inr (old, e) ↦ elim (Option-cases (new_discovery_for m c)) [
      | inl f ↦ inr (
        inr (inl f),
        ap (λ (x : Now). x.current_config) (no_discovery-turn m c a differs (inr f)),
      )
      | inr (d, f) ↦ elim (Option-cases (new_router_for c)) [
        | inl g ↦ inr (
          inr (inr (inl g)),
          ap (λ (x : Now). x.current_config)
              (router-turn string validate_url fl h s controller chunk_size load_callbacks m c a old
                d differs e f g),
        )
        | inr (r, g) ↦ elim (Option-cases (new_callbacks_for c)) [
          | inl k ↦ inr (
            inr (inr (inr k)),
            ap (λ (x : Now). x.current_config)
                (callbacks-turn string validate_url fl h s controller chunk_size load_callbacks m c
                  a old d r differs e f g k),
          )
          | inr (cb, k) ↦
              let done =
                complete-turn string validate_url fl h s controller chunk_size load_callbacks m c a
                  old d r cb differs e f g k in
              inl (
                subst (λ (x : Now). IsApplied m c x) (sym done)
                  (record {
                    discovery = (d, f, refl);
                    router = (
                      r,
                      g,
                      refl,
                      renewed-registered string validate_url fl h s controller chunk_size
                            load_callbacks c a
                          ∙ g,
                    );
                    callbacks = k;
                    current = refl;
                  }))
        ]
      ]
    ]
  ]

  -- a turn with a configuration, and one with the current one
  abbrev pub back : Moment → Moment → DynamicRouterConfig → Now → Now
  back m m' c a = next m' a.current_config (next m c a)

  -- When a configuration is read of which the discovery can be made and the router cannot, and then
  -- the file is set back to the current one: the discovery is that of the bad configuration and no
  -- router is registered, and every further turn with the file as it is leaves it so.
  pub watch_turn_set_back :
      (m m' m'' : Moment) (c : DynamicRouterConfig) (a : Now) (old d : ServiceDiscovery)
      → c ≢ a.current_config
      → a.discovery ≡ some old
      → new_discovery_for m c ≡ some d
      → new_router_for c ≡ none
      → ((back m m' c a).discovery ≡ some d)
        × (registered_in (back m m' c a) ≡ none)
        × ((back m m' c a).router ≡ a.router)
        × ((back m m' c a).current_config ≡ a.current_config)
        × (next m'' a.current_config (back m m' c a) ≡ back m m' c a)
  watch_turn_set_back m m' m'' c a old d differs e f g =
      let left =
        router-turn string validate_url fl h s controller chunk_size load_callbacks m c a old d
          differs e f g in
      let settled =
        same-turn string validate_url fl h s controller chunk_size load_callbacks m'
          a.current_config (next m c a) (sym (ap (λ (x : Now). x.current_config) left)) in
      let both = settled ∙ left in
      (
        ap (λ (x : Now). x.discovery) both,
        ap (λ (x : Now). registered_in x) both
            ∙ renewed-registered string validate_url fl h s controller chunk_size load_callbacks c a
            ∙ g,
        ap (λ (x : Now). x.router) both,
        ap (λ (x : Now). x.current_config) both,
        same-turn string validate_url fl h s controller chunk_size load_callbacks m''
            a.current_config (next m' a.current_config (next m c a))
            (sym (ap (λ (x : Now). x.current_config) both)),
      )
