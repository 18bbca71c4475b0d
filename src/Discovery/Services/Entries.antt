-- ===== src/Discovery/Services/Entries.antt =====
-- The table of engines service by service: what an event makes of each entry.
use vllm_production_stack_cu.Base.{
  String, ◌≡◌, refl, ap, ◌∙◌, inl, inr, Bool, ◌&&◌, not, Option, none, some, List, [], ◌∷◌,
  is_empty, arith, ◌==◌, string_eq, if◌then◌else◌, Bool-cases, Option-cases,
}
use vllm_production_stack_cu.Base.Dict.{get, get-put, get-remove}
use vllm_production_stack_cu.Discovery.{EndpointInfo}
use vllm_production_stack_cu.Discovery.Kubernetes.{added, modified, deleted, other}
use vllm_production_stack_cu.Discovery.Services.{
  ServiceEvent, ServiceDiscovery, check_service_ready, service_endpoint, add_service,
  delete_service, on_service_update, watch_service, watch_services,
}

-- whether the service is ready and its engine has models, `none` if the API cannot tell
abbrev pub serving : ServiceEvent → Option Bool
serving ev = elim ev.subsets [
  | none ↦ none
  | some subsets ↦ some (check_service_ready subsets && not (is_empty ev.model_names))
]

module _ (uuid5 : String → String) (url : String → String → String) (namespace port : String) where
  -- an entry that is written, unless an exception stops it
  abbrev made : ServiceEvent → Option EndpointInfo → Option EndpointInfo
  made ev before = elim (service_endpoint uuid5 url namespace port ev) [
    | none ↦ before
    | some e ↦ some e
  ]

  -- the entry of the event's own service after the event, from the one before
  unfoldable pub service_after : ServiceEvent → Option EndpointInfo → Option EndpointInfo
  service_after ev before = elim ev.event_type [
    | deleted ↦ none
    | other ↦ before
    | added ↦ elim (serving ev) [
      | none ↦ before
      | some serves ↦ if not (ev.service_name == "") && serves then made ev before else before
    ]
    | modified ↦ elim (serving ev) [
      | none ↦ before
      | some serves ↦
          if ev.service_name == "" then before else (if serves then made ev before else none)
    ]
  ]

  -- the entry of one service after a sequence of events, of which only its own count
  unfoldable pub service_entry :
      String → List ServiceEvent → Option EndpointInfo → Option EndpointInfo
  unfolding service_after
  service_entry n [] before = before
  service_entry n (ev ∷ evs) before =
      service_entry n evs (if ev.service_name == n then service_after ev before else before)

  -- what a handler leaves in the table for `n`, with the fields that it does not touch
  abbrev LeavesService : ServiceDiscovery → String → Option EndpointInfo → Type 0
  LeavesService d n after =
      (get n d.available_engines ≡ after) × (d.namespace ≡ namespace) × (d.port ≡ port)

  add_service-LeavesService :
      (d : ServiceDiscovery) (ev : ServiceEvent) (n : String)
      → d.namespace ≡ namespace
      → d.port ≡ port
      → LeavesService (add_service uuid5 url d ev) n (
          if ev.service_name == n
          then made ev (get n d.available_engines)
          else get n d.available_engines)
  unfolding add_service
  add_service-LeavesService d ev n e e' =
      elim (Option-cases (service_endpoint uuid5 url namespace port ev)) [
        | inl stopped ↦ ground (arith, e, e', stopped)
        | inr (new, ok) ↦
            ground (arith, e, e', ok, get-put ev.service_name n new d.available_engines)
      ]

  delete_service-LeavesService :
      (d : ServiceDiscovery) (k n : String)
      → d.namespace ≡ namespace
      → d.port ≡ port
      → LeavesService
          (delete_service uuid5 url d k)
          n
          (if k == n then none else get n d.available_engines)
  unfolding delete_service
  delete_service-LeavesService d k n e e' = elim (Bool-cases (k == n)) [
    | inl own ↦ ground (arith, get-remove k n d.available_engines, string_eq.same_iff k n)
    | inr another ↦ ground (arith, get-remove k n d.available_engines)
  ]

  watch_service-LeavesService :
      (d : ServiceDiscovery) (ev : ServiceEvent) (n : String)
      → d.namespace ≡ namespace
      → d.port ≡ port
      → LeavesService (watch_service uuid5 url d ev) n (
          if ev.service_name == n
          then service_after ev (get n d.available_engines)
          else get n d.available_engines)
  unfolding watch_service on_service_update service_after
  watch_service-LeavesService d ev n e e' = ground (
    arith,
    delete_service-LeavesService d ev.service_name n e e',
    add_service-LeavesService d ev n e e',
  )

  -- Whatever the events, and however those of several services are mixed, the entry of a service is
  -- what its own events alone make of it.
  pub get-watch_services :
      (d : ServiceDiscovery) (evs : List ServiceEvent) (n : String)
      → d.namespace ≡ namespace
      → d.port ≡ port
      → get n (watch_services uuid5 url d evs).available_engines
        ≡ service_entry n evs (get n d.available_engines)
  unfolding watch_services service_entry
  get-watch_services d [] n e e' = refl
  get-watch_services d (ev ∷ evs) n e e' =
      let (after, keep, keep') = watch_service-LeavesService d ev n e e' in
      get-watch_services (watch_service uuid5 url d ev) evs n keep keep'
      ∙ ap (service_entry n evs) after
