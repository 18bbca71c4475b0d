-- ===== src/Requests/Outcome.antt =====
-- Where a request for a model ends.
use vllm_production_stack_cu.Base.{
  String, ◌≡◌, refl, sym, ap, subst, ◌∙◌, Bool, true, false, Option, none, some, List, ◌∷◌, filter,
  string_eq, Option-cases, In, In-filter, map-In, inl, inr, ◌⊎◌,
}
use vllm_production_stack_cu.Base.Dict.{mem}
use vllm_production_stack_cu.Base.Json.{Value, Fields, find, assign}
use vllm_production_stack_cu.Discovery.{EndpointInfo, urls}
use vllm_production_stack_cu.Discovery.Kubernetes.{
  Discovery, Clients, new_discovery, PodEvent, watch_engines, get_endpoint_info,
  has_ever_seen_model,
}
use vllm_production_stack_cu.Discovery.Kubernetes.Known.{
  watch_engines-IsKnown, has_ever_seen_model-watch_engines, seen_state,
  has_ever_seen_model-seen_state,
}
use vllm_production_stack_cu.Requests.{
  Reply, Services, alias_of, asks_for, can_serve, choose, resolve, route_general_request,
}
use vllm_production_stack_cu.Requests.Serving.{
  resolved, resolved_body, IsServed, IsFiltered, IsFiltered-IsServed, filter-empty, left-cases,
}

module _ (router : List EndpointInfo → Fields → Option String) where
  -- On at least one endpoint the router answers with the url of one of them.
  abbrev pub IsRouter : Type 0
  IsRouter =
      (x : EndpointInfo) (xs : List EndpointInfo) (json : Fields)
      → (u : String) × (router (x ∷ xs) json ≡ some u) × In u (urls (x ∷ xs))

  choose-IsFiltered :
      (services : Services) (id : Option String) (model : String) (json body : Fields)
      → IsRouter
      → IsFiltered services id model body (choose router services id model json body)
  unfolding choose
  choose-IsFiltered services none model json body law =
      elim (left-cases (filter (can_serve model none) services.endpoints)) [
        | inl none_left ↦ inr (
          filter-empty (can_serve model none) services.endpoints none_left,
          rw (none_left, choose) refl,
        )
        | inr (x, xs, left) ↦
            let (u, answer, m) = law x xs json in
            let (e, at, same) = map-In (λ (e : EndpointInfo). e.url) (x ∷ xs) m in
            let (old, able) =
              In-filter (can_serve model none) services.endpoints
                (subst (λ ys. In e ys) (sym left) at) in
            inl (e, old, able, rw (left, choose) (rw (answer, same) refl))
      ]
  choose-IsFiltered services (some i) model json body law =
      elim (left-cases (filter (can_serve model (some i)) services.endpoints)) [
        | inl none_left ↦ inr (
          filter-empty (can_serve model (some i)) services.endpoints none_left,
          rw (none_left, choose) refl,
        )
        | inr (x, xs, left) ↦
            let (old, able) =
              In-filter (can_serve model (some i)) services.endpoints
                (subst (λ ys. In x ys) (sym left) (inl refl)) in
            inl (x, old, able, rw (left, choose) refl)
      ]

  -- With a router that answers with the url of an endpoint when it has any, and is not the one for
  -- disaggregated prefill: a request for a model, by name, that the callback leaves alone and the
  -- rewriter accepts goes to an engine of the discovery that has the model (or the one that its alias
  -- names), is awake, and is the one asked for if the request asks for one, with a text that is not
  -- empty; or there is no such engine, and the answer is 503 for a model that the discovery has seen
  -- and 404 for another.
  pub route_general_request-IsServed :
      (pre_request : Fields → Bool) (rewrite : Fields → Option Fields) (services : Services)
      (id : Option String) (json rewritten : Fields) (model : String)
      → IsRouter
      → pre_request json ≡ false
      → find "model" json ≡ some (Value.str model)
      → rewrite json ≡ some rewritten
      → IsServed services id
          (resolved services model)
          (resolved_body services model rewritten)
          (route_general_request router false pre_request rewrite services id json)
  unfolding route_general_request resolve
  route_general_request-IsServed pre_request rewrite services id json rewritten model law e e' e'' =
      elim (Option-cases (alias_of services model)) [
        | inl same ↦
            rw (e, e', e'', same, route_general_request, resolve, resolved, resolved_body)
              (IsFiltered-IsServed services id model rewritten
                (choose router services (asks_for id) model rewritten rewritten)
                (choose-IsFiltered services (asks_for id) model rewritten rewritten law))
        | inr (other_model, alias) ↦
            let body = assign "model" (Value.str other_model) rewritten in
            rw (e, e', e'', alias, route_general_request, resolve, resolved, resolved_body)
              (IsFiltered-IsServed services id other_model body
                (choose router services (asks_for id) other_model body body)
                (choose-IsFiltered services (asks_for id) other_model body body law))
      ]

-- what a request sees of the Kubernetes discovery, which has no aliases
abbrev pub kubernetes : Discovery → Services
kubernetes d = record {
  endpoints = get_endpoint_info d;
  aliases = none;
  has_ever_seen_model = some (has_ever_seen_model d);
}

-- what a memory says of a model
abbrev recalls : Option (String → Bool) → String → Bool
recalls none model = false
recalls (some seen) model = seen model

-- sent to an awake engine that has the model, or 503
abbrev pub IsRemembered : Services → String → Fields → Reply → Type 0
IsRemembered services model body reply =
    ((e : EndpointInfo) × In e services.endpoints
      × In model e.model_names
      × (e.sleep ≡ false)
      × (reply ≡ Reply.sent e.url body))
    ⊎ (reply ≡ Reply.unavailable (Value.str model))

module _ (router : List EndpointInfo → Fields → Option String) where
  remembered :
      (d : Discovery) (model : String) (body : Fields) (reply : Reply)
      → has_ever_seen_model d model ≡ true
      → IsServed (kubernetes d) none model body reply
      → IsRemembered (kubernetes d) model body reply
  remembered d model body reply seen (inl (e, place, (has, awake, asked), sent)) =
      inl (e, place, has, awake, sent)
  remembered d model body reply seen (inr (unable, inl (y, answer))) = inr answer
  remembered d model body reply seen (inr (unable, inr (inl no_memory, answer))) = cc
  remembered d model body reply seen (inr (unable, inr (inr (memory, same, unseen), answer))) =
      let q : has_ever_seen_model d model ≡ memory model = ap (λ o. recalls o model) same in cc

  -- With a router that answers with the url of an endpoint when it has any, and is not the one for
  -- disaggregated prefill: a model of an engine that was on offer when the watcher of the pods had
  -- handled some events after the start is remembered. Whatever the later events, and while a further
  -- one is being handled too, a request for it that the callback leaves alone and the rewriter
  -- accepts, with no engine asked for, goes to an awake engine that has it or is answered with 503,
  -- and never with 404.
  pub route_general_request-IsRemembered :
      (uuid5 : String → String) (url : String → String → String) (pre_request : Fields → Bool)
      (rewrite : Fields → Option Fields) (namespace port : String)
      (prefill decode : Option (List String)) (c : Clients) (events later : List PodEvent)
      (now : Option PodEvent) (e : EndpointInfo) (json rewritten : Fields) (model : String)
      → IsRouter router
      → In e (
          get_endpoint_info
            (watch_engines uuid5 url (new_discovery namespace port prefill decode c) events))
      → mem model e.model_names ≡ true
      → pre_request json ≡ false
      → find "model" json ≡ some (Value.str model)
      → rewrite json ≡ some rewritten
      → IsRemembered
          (kubernetes (
            seen_state uuid5 url
              (watch_engines uuid5 url
                (watch_engines uuid5 url (new_discovery namespace port prefill decode c) events)
                later)
              now))
          model
          rewritten
          (route_general_request router false pre_request rewrite
            (kubernetes (
              seen_state uuid5 url
                (watch_engines uuid5 url
                  (watch_engines uuid5 url (new_discovery namespace port prefill decode c) events)
                  later)
                now))
            none
            json)
  route_general_request-IsRemembered uuid5 url pre_request rewrite namespace port prefill decode c
        events later now e json rewritten model law offered has p q r =
      let d = watch_engines uuid5 url (new_discovery namespace port prefill decode c) events in
      let d' = watch_engines uuid5 url d later in
      let s = seen_state uuid5 url d' now in
      let (y, during) = watch_engines-IsKnown uuid5 url namespace port prefill decode c events in
      let seen : has_ever_seen_model d' model ≡ true =
        has_ever_seen_model-watch_engines uuid5 url d later model (y.seen e model offered has) in
      remembered s model rewritten
        (route_general_request router false pre_request rewrite (kubernetes s) none json)
        (has_ever_seen_model-seen_state uuid5 url d' now model ∙ seen)
        (route_general_request-IsServed router pre_request rewrite (kubernetes s) none json
          rewritten model law p q r)
