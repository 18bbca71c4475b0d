-- ===== src/Discovery/Kubernetes/Known.antt =====
-- The models that the discovery has ever seen, against the engines that it offers.
use vllm_production_stack_cu.Base.{
  String, ◌≡◌, refl, true, false, ◌||◌, Option, none, some, List, [], ◌∷◌, map, is_empty, arith,
  ◌==◌, string_eq, Bool-cases, Option-cases, In, inl, inr, ◌⊎◌,
}
use vllm_production_stack_cu.Base.Dict.{Dict, put, remove, mem, add, mem-add}
use vllm_production_stack_cu.Discovery.{EndpointInfo}
use vllm_production_stack_cu.Discovery.Kubernetes.{
  PodEvent, Discovery, Clients, new_discovery, endpoint_of, offer_engine, remember_engine, adds,
  during_event, add_engine, delete_engine, on_engine_update, watch_event, watch_engines,
  get_endpoint_info, update_known, has_ever_seen_model,
}

abbrev values : Dict String EndpointInfo → List EndpointInfo
values d = map (λ p. p.1) d

values-put :
    (k : String) (v : EndpointInfo) (d : Dict String EndpointInfo) (e : EndpointInfo)
    → In e (values (put k v d))
    → (e ≡ v) ⊎ In e (values d)
unfolding put
values-put k v [] e (inl p) = inl p
values-put k v [] e (inr m) = elim m [ ]
values-put k v ((j, w) ∷ d) e m = elim (Bool-cases (j == k)) [
  | inl t ↦ elim (rw t at m) [ inl p ↦ inl p | inr old ↦ inr (inr old) ]
  | inr f ↦ elim (rw f at m) [
    | inl p ↦ inr (inl p)
    | inr later ↦ elim (values-put k v d e later) [ inl p ↦ inl p | inr old ↦ inr (inr old) ]
  ]
]

values-remove :
    (k : String) (d : Dict String EndpointInfo) (e : EndpointInfo)
    → In e (values (remove k d))
    → In e (values d)
unfolding remove
values-remove k [] e m = m
values-remove k ((j, w) ∷ d) e m = elim (Bool-cases (j == k)) [
  | inl t ↦ inr (values-remove k d e (rw t at m))
  | inr f ↦ elim (rw f at m) [ inl p ↦ inl p | inr later ↦ inr (values-remove k d e later) ]
]

mem-update_known :
    (x : String) (ns known : List String)
    → mem x (update_known ns known) ≡ (mem x ns || mem x known)
unfolding update_known mem
mem-update_known x [] known = refl
mem-update_known x (n ∷ ns) known =
    ground (arith, mem-update_known x ns (add n known), mem-add n x known)

-- Every engine on offer has models, and all of them are known.
pub record IsKnown (d : Discovery) : Type 0 where
  pub serving : (e : EndpointInfo) → In e (get_endpoint_info d) → is_empty e.model_names ≡ false
  pub seen :
      (e : EndpointInfo) (x : String)
      → In e (get_endpoint_info d)
      → mem x e.model_names ≡ true
      → has_ever_seen_model d x ≡ true

new_discovery-IsKnown :
    (namespace port : String) (prefill decode : Option (List String)) (c : Clients)
    → IsKnown (new_discovery namespace port prefill decode c)
unfolding new_discovery get_endpoint_info
new_discovery-IsKnown namespace port prefill decode c = record {
  serving = λ e m. elim m [ ];
  seen = λ e x m h. elim m [ ];
}

module _ (uuid5 : String → String) (url : String → String → String) where
  add_engine-IsKnown :
      (d : Discovery) (ev : PodEvent) (ip : String) (names : List String) (label : Option String)
      → is_empty names ≡ false
      → IsKnown d
      → IsKnown (add_engine uuid5 url d ev ip names label)
  unfolding add_engine offer_engine remember_engine get_endpoint_info has_ever_seen_model
      endpoint_of
  add_engine-IsKnown d ev ip names label some_names y =
      let new : EndpointInfo = endpoint_of uuid5 url d.namespace d.port ev ip names label in
      record {
        serving = λ e m. elim (values-put ev.pod_name new d.available_engines e m) [
          | inl p ↦ rw p some_names
          | inr old ↦ y.serving e old
        ];
        seen = λ e x m h. elim (values-put ev.pod_name new d.available_engines e m) [
          | inl p ↦ ground (arith, mem-update_known x names d.known_models, p)
          | inr old ↦ ground (arith, mem-update_known x names d.known_models, y.seen e x old h)
        ];
      }

  delete_engine-IsKnown : (d : Discovery) (k : String) → IsKnown d → IsKnown (delete_engine d k)
  unfolding delete_engine get_endpoint_info has_ever_seen_model
  delete_engine-IsKnown d k y = record {
    serving = λ e m. y.serving e (values-remove k d.available_engines e m);
    seen = λ e x m h. y.seen e x (values-remove k d.available_engines e m) h;
  }

  watch_event-IsKnown :
      (d : Discovery) (ev : PodEvent) → IsKnown d → IsKnown (watch_event uuid5 url d ev)
  unfolding watch_event on_engine_update
  watch_event-IsKnown d ev y = elim (Option-cases ev.pod_ip) [
    | inl no_ip ↦ ground (arith, delete_engine-IsKnown d ev.pod_name y)
    | inr (ip, has_ip) ↦ ground (
      arith,
      delete_engine-IsKnown d ev.pod_name y,
      add_engine-IsKnown d ev ip ev.model_names ev.label,
    )
  ]

  keeps-IsKnown :
      (d : Discovery) (evs : List PodEvent) → IsKnown d → IsKnown (watch_engines uuid5 url d evs)
  unfolding watch_engines
  keeps-IsKnown d [] y = y
  keeps-IsKnown d (ev ∷ evs) y =
      keeps-IsKnown (watch_event uuid5 url d ev) evs (watch_event-IsKnown d ev y)

  -- While an event is handled: every engine on offer has models, and they are known, but for the
  -- engine that the event puts on offer.
  abbrev pub IsKnownDuring : Discovery → PodEvent → Type 0
  IsKnownDuring d ev =
      (e : EndpointInfo)
      → In e (get_endpoint_info (during_event uuid5 url d ev))
      → (is_empty e.model_names ≡ false)
        × (((x : String)
              → mem x e.model_names ≡ true
              → has_ever_seen_model (during_event uuid5 url d ev) x ≡ true)
            ⊎ ((adds ev ≡ true)
                × (e.pod_name ≡ some ev.pod_name)
                × (e.model_names ≡ ev.model_names)))

  adds_some : (ev : PodEvent) → adds ev ≡ true → is_empty ev.model_names ≡ false
  unfolding adds
  adds_some ev t = ground (arith, t)

  IsKnown-IsKnownDuring : (d : Discovery) (ev : PodEvent) → IsKnown d → IsKnownDuring d ev
  unfolding during_event offer_engine get_endpoint_info has_ever_seen_model endpoint_of
  IsKnown-IsKnownDuring d ev y e m = elim (Option-cases ev.pod_ip) [
    | inl no_ip ↦
        let m' : In e (get_endpoint_info d) = rw (no_ip, during_event) at m in
        rw (no_ip, during_event) (y.serving e m', inl (λ x h. y.seen e x m' h))
    | inr (ip, has_ip) ↦ elim (Bool-cases (adds ev)) [
      | inr f ↦
          let m' : In e (get_endpoint_info d) = rw (has_ip, f, during_event) at m in
          rw (has_ip, f, during_event) (y.serving e m', inl (λ x h. y.seen e x m' h))
      | inl t ↦
          let new : EndpointInfo =
            endpoint_of uuid5 url d.namespace d.port ev ip ev.model_names ev.label in
          let m' : In e (values (put ev.pod_name new d.available_engines)) =
            rw (has_ip, t, during_event) at m in
          elim (values-put ev.pod_name new d.available_engines e m') [
            | inl p ↦ (rw p (adds_some ev t), inr (t, rw p refl, rw p refl))
            | inr old ↦
                (y.serving e old, inl (λ x h. rw (has_ip, t, during_event) (y.seen e x old h)))
          ]
    ]
  ]

  -- Whatever the events since the start, between two of them every engine on offer has models, and
  -- all of them have been seen. While a further event is handled, that holds of every engine but the
  -- one that the event puts on offer, which has models that may not have been seen yet.
  pub watch_engines-IsKnown :
      (namespace port : String) (prefill decode : Option (List String)) (c : Clients)
      (evs : List PodEvent)
      → IsKnown (watch_engines uuid5 url (new_discovery namespace port prefill decode c) evs)
        × ((ev : PodEvent)
            → IsKnownDuring
                (watch_engines uuid5 url (new_discovery namespace port prefill decode c) evs)
                ev)
  watch_engines-IsKnown namespace port prefill decode c evs =
      let d = watch_engines uuid5 url (new_discovery namespace port prefill decode c) evs in
      let y =
        keeps-IsKnown (new_discovery namespace port prefill decode c) evs
          (new_discovery-IsKnown namespace port prefill decode c) in
      (y, λ ev. IsKnown-IsKnownDuring d ev y)

  -- the event is handled by what is left to do after the engine is on offer
  pub watch_event-during :
      (d : Discovery) (ev : PodEvent) (ip : String)
      → ev.pod_ip ≡ some ip
      → adds ev ≡ true
      → watch_event uuid5 url d ev ≡ remember_engine (during_event uuid5 url d ev) ev ev.model_names
  unfolding watch_event on_engine_update add_engine during_event adds
  watch_event-during d ev ip e t = ground (arith, e, t)

  during_event-seen :
      (d : Discovery) (ev : PodEvent) (x : String)
      → has_ever_seen_model (during_event uuid5 url d ev) x ≡ has_ever_seen_model d x
  unfolding during_event offer_engine has_ever_seen_model
  during_event-seen d ev x = elim (Option-cases ev.pod_ip) [
    | inl e ↦ rw (e, during_event) refl
    | inr (ip, e) ↦ elim (Bool-cases (adds ev)) [
      | inl t ↦ rw (e, t, during_event) refl
      | inr f ↦ rw (e, f, during_event) refl
    ]
  ]

  add_engine-seen :
      (d : Discovery) (ev : PodEvent) (ip x : String) (names : List String) (label : Option String)
      → has_ever_seen_model d x ≡ true
      → has_ever_seen_model (add_engine uuid5 url d ev ip names label) x ≡ true
  unfolding add_engine offer_engine remember_engine has_ever_seen_model
  add_engine-seen d ev ip x names label h = ground (arith, mem-update_known x names d.known_models)

  delete_engine-seen :
      (d : Discovery) (k x : String)
      → has_ever_seen_model (delete_engine d k) x ≡ has_ever_seen_model d x
  unfolding delete_engine has_ever_seen_model
  delete_engine-seen d k x = refl

  watch_event-seen :
      (d : Discovery) (ev : PodEvent) (x : String)
      → has_ever_seen_model d x ≡ true
      → has_ever_seen_model (watch_event uuid5 url d ev) x ≡ true
  unfolding watch_event on_engine_update
  watch_event-seen d ev x h = elim (Option-cases ev.pod_ip) [
    | inl no_ip ↦ ground (arith, delete_engine-seen d ev.pod_name x)
    | inr (ip, has_ip) ↦ ground (
      arith,
      delete_engine-seen d ev.pod_name x,
      add_engine-seen d ev ip x ev.model_names ev.label,
    )
  ]

  -- what requests see: after the events, or in the midst of a further one
  abbrev pub seen_state : Discovery → Option PodEvent → Discovery
  seen_state d none = d
  seen_state d (some ev) = during_event uuid5 url d ev

  pub has_ever_seen_model-seen_state :
      (d : Discovery) (now : Option PodEvent) (x : String)
      → has_ever_seen_model (seen_state d now) x ≡ has_ever_seen_model d x
  has_ever_seen_model-seen_state d none x = refl
  has_ever_seen_model-seen_state d (some ev) x = during_event-seen d ev x

  -- A model that was seen stays known, whatever events follow.
  pub has_ever_seen_model-watch_engines :
      (d : Discovery) (evs : List PodEvent) (x : String)
      → has_ever_seen_model d x ≡ true
      → has_ever_seen_model (watch_engines uuid5 url d evs) x ≡ true
  unfolding watch_engines
  has_ever_seen_model-watch_engines d [] x h = h
  has_ever_seen_model-watch_engines d (ev ∷ evs) x h =
      has_ever_seen_model-watch_engines (watch_event uuid5 url d ev) evs x
        (watch_event-seen d ev x h)
