-- ===== src/Discovery/Kubernetes/Pods.antt =====
-- The table of engines pod by pod: what the events of one pod make of its entry.
use vllm_production_stack_cu.Base.{
  String, ◌≡◌, refl, ap, ◌∙◌, inl, inr, Bool, ◌&&◌, not, Option, none, some, List, [], ◌∷◌,
  is_empty, arith, ◌==◌, string_eq, if◌then◌else◌, Bool-cases, Option-cases,
}
use vllm_production_stack_cu.Base.Dict.{get, has, get-put, get-remove}
use vllm_production_stack_cu.Discovery.{EndpointInfo}
use vllm_production_stack_cu.Discovery.Kubernetes.{
  PodEvent, Discovery, added, modified, deleted, other, endpoint_of, add_engine, delete_engine,
  on_engine_update, is_pod_ready, watch_event, watch_engines,
}

-- Ready, with models to serve.
abbrev pub serves : PodEvent → Bool
serves ev = is_pod_ready ev && not (is_empty ev.model_names)

module _ (uuid5 : String → String) (url : String → String → String) (namespace port : String) where
  -- the entry of the event's own pod after the event, from the one before
  unfoldable pub entry_after : PodEvent → Option EndpointInfo → Option EndpointInfo
  entry_after ev before = elim ev.event_type [
    | deleted ↦ none
    | other ↦ before
    | added ↦ elim ev.pod_ip [
      | none ↦ before
      | some ip ↦
          if serves ev
          then some (endpoint_of uuid5 url namespace port ev ip ev.model_names ev.label)
          else before
    ]
    | modified ↦ elim ev.pod_ip [
      | none ↦ before
      | some ip ↦
          if serves ev
          then some (endpoint_of uuid5 url namespace port ev ip ev.model_names ev.label)
          else none
    ]
  ]

  -- the entry of one pod after a sequence of events, of which only its own count
  unfoldable pub entry : String → List PodEvent → Option EndpointInfo → Option EndpointInfo
  unfolding entry_after
  entry n [] before = before
  entry n (ev ∷ evs) before =
      entry n evs (if ev.pod_name == n then entry_after ev before else before)

  -- what a handler leaves in the table for the pod `n`, with the fields that it does not touch
  abbrev Leaves : Discovery → String → Option EndpointInfo → Type 0
  Leaves d n after =
      (get n d.available_engines ≡ after) × (d.namespace ≡ namespace) × (d.port ≡ port)

  add_engine-Leaves :
      (d : Discovery) (ev : PodEvent) (ip n : String)
      → d.namespace ≡ namespace
      → d.port ≡ port
      → Leaves (add_engine uuid5 url d ev ip ev.model_names ev.label) n (
          if ev.pod_name == n
          then some (endpoint_of uuid5 url namespace port ev ip ev.model_names ev.label)
          else get n d.available_engines)
  unfolding add_engine
  add_engine-Leaves d ev ip n e e' = (
    get-put ev.pod_name n (endpoint_of uuid5 url d.namespace d.port ev ip ev.model_names ev.label)
          d.available_engines
        ∙ rw (e, e') refl,
    e,
    e',
  )

  delete_engine-Leaves :
      (d : Discovery) (k n : String)
      → d.namespace ≡ namespace
      → d.port ≡ port
      → Leaves
          (if has k d.available_engines then delete_engine d k else d)
          n
          (if k == n then none else get n d.available_engines)
  unfolding delete_engine
  delete_engine-Leaves d k n e e' = elim (Bool-cases (k == n)) [
    | inl own ↦ ground (arith, get-remove k n d.available_engines, string_eq.same_iff k n)
    | inr another ↦ ground (arith, get-remove k n d.available_engines)
  ]

  watch_event-Leaves :
      (d : Discovery) (ev : PodEvent) (n : String)
      → d.namespace ≡ namespace
      → d.port ≡ port
      → Leaves (watch_event uuid5 url d ev) n (
          if ev.pod_name == n
          then entry_after ev (get n d.available_engines)
          else get n d.available_engines)
  unfolding watch_event on_engine_update entry_after
  watch_event-Leaves d ev n e e' = elim (Option-cases ev.pod_ip) [
    | inl no_ip ↦ ground (arith, delete_engine-Leaves d ev.pod_name n e e')
    | inr (ip, has_ip) ↦
        ground (arith, delete_engine-Leaves d ev.pod_name n e e', add_engine-Leaves d ev ip n e e')
  ]

  -- Whatever the events, and however those of several pods are mixed, the entry of a pod is what
  -- its own events alone make of it.
  pub get-watch_engines :
      (d : Discovery) (evs : List PodEvent) (n : String)
      → d.namespace ≡ namespace
      → d.port ≡ port
      → get n (watch_engines uuid5 url d evs).available_engines
        ≡ entry n evs (get n d.available_engines)
  unfolding watch_engines entry
  get-watch_engines d [] n same_namespace same_port = refl
  get-watch_engines d (ev ∷ evs) n same_namespace same_port =
      let (e, keep, keep') = watch_event-Leaves d ev n same_namespace same_port in
      get-watch_engines (watch_event uuid5 url d ev) evs n keep keep' ∙ ap (entry n evs) e
