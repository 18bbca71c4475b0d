-- ===== src/Routing/KvAware/Choice.antt =====
-- Where a request goes after the answer of the controller.
use vllm_production_stack_cu.Base.{
  ℕ, ◌+◌, ◌<◌, ◌≤◌, length, String, ◌≡◌, ◌≢◌, refl, ◌∙◌, ap, Bool, true, false, Option, none, some,
  List, [], ◌∷◌, In, All, arith, string_eq, ◌⊎◌, inl, inr, Option-cases, Bool-cases, ◌==◌,
  if◌then◌else◌,
}
use vllm_production_stack_cu.Base.Dict.{Dict, get, put, get-put}
use vllm_production_stack_cu.Base.Floats.{Floats}
use vllm_production_stack_cu.Base.Json.{Value, Fields, find_or}
use vllm_production_stack_cu.Discovery.{EndpointInfo}
use vllm_production_stack_cu.Stats.{RequestStats}
use vllm_production_stack_cu.Routing.Ring.{HashRing}
use vllm_production_stack_cu.Routing.Session
use vllm_production_stack_cu.Routing.Session.{SessionRouter}
use vllm_production_stack_cu.Routing.KvAware.Address.{query_ip}
use vllm_production_stack_cu.Routing.KvAware.{
  Layout, Services, Outcome, routed, raised, too_short, KvawareRouter, token_ids_of, learn,
  fall_back, known_url, follow, choose, route_request,
}

module _ (fl : Floats) (h : HashRing) (s : Services) where
  open s use {query_instance}

  -- the instance at an endpoint
  abbrev pub instance_at : EndpointInfo → Option String
  instance_at e = elim (query_ip e.url) [ none ↦ none | some ip ↦ query_instance ip ]

  -- what the loop leaves for an instance
  abbrev IsLearned :
      String → List EndpointInfo → Dict String String → Dict String String × Bool → Type 0
  IsLearned i endpoints before (known, finished) =
      ((finished ≡ false) × ((e : EndpointInfo) × In e endpoints × (instance_at e ≡ none)))
      ⊎ ((finished ≡ true)
          × (((e : EndpointInfo) × In e endpoints
                × (instance_at e ≡ some i)
                × (get i known ≡ some e.url))
              ⊎ (All (λ e. instance_at e ≢ some i) endpoints × (get i known ≡ get i before))))

  -- a step of the loop
  step-IsLearned :
      (i j : String) (e : EndpointInfo) (endpoints : List EndpointInfo) (known : Dict String String)
      → (after : Dict String String × Bool) → instance_at e ≡ some j
      → IsLearned i endpoints (put j e.url known) after
      → IsLearned i (e ∷ endpoints) known after
  step-IsLearned i j e endpoints known after here (inl (f, (x, m, p))) = inl (f, (x, inr m, p))
  step-IsLearned i j e endpoints known after here (inr (t, inl (x, m, p, g))) =
      inr (t, inl (x, inr m, p, g))
  step-IsLearned i j e endpoints known after here (inr (t, inr (all, g))) =
      elim (Bool-cases (j == i)) [
        | inl same ↦
            let q : j ≡ i = (string_eq.same_iff j i).0 same in
            inr (
              t,
              inl (e, inl refl, here ∙ ap some q, ground (arith, g, get-put j i e.url known, same)),
            )
        | inr other ↦
            let apart : j ≢ i = λ q. ground (arith, (string_eq.same_iff j i).1 q, other) in
            let differs : instance_at e ≢ some i = λ p. let q : j ≡ i = cc in apart q in
            inr (t, inr ((differs, all), ground (arith, g, get-put j i e.url known, other)))
      ]

  learn-IsLearned :
      (i : String) (endpoints : List EndpointInfo) (known : Dict String String)
      → IsLearned i endpoints known (learn fl h s endpoints known)
  unfolding learn
  learn-IsLearned i [] known = inr (refl, inr (tt, refl))
  learn-IsLearned i (e ∷ endpoints) known = elim (Option-cases (query_ip e.url)) [
    | inl no_ip ↦ rw (learn, no_ip) (inl (refl, (e, inl refl, rw (instance_at, no_ip) refl)))
    | inr (ip, e') ↦ elim (Option-cases (query_instance ip)) [
      | inl lost ↦ rw (learn, e', lost) (inl (refl, (e, inl refl, rw (instance_at, e', lost) refl)))
      | inr (j, here) ↦
          rw (learn, e', here)
            (step-IsLearned i j e endpoints known (learn fl h s endpoints (put j e.url known))
              (rw (instance_at, e', here) refl) (learn-IsLearned i endpoints (put j e.url known)))
    ]
  ]

  -- where a request goes whose prefix is at an instance: to the url that was noted for it, or, when
  -- there is none, to an endpoint that has told to be it; the call raises if no endpoint has, or if
  -- one has told nothing
  abbrev pub IsFollowed : String → List EndpointInfo → Dict String String → Outcome → Type 0
  IsFollowed i endpoints known outcome =
      ((url : String) × (get i known ≡ some url) × (outcome ≡ routed (some url)))
      ⊎ ((get i known ≡ none)
          × (((e : EndpointInfo) × In e endpoints
                × (instance_at e ≡ some i)
                × (outcome ≡ routed (some e.url)))
              ⊎ ((outcome ≡ raised)
                  × (((e : EndpointInfo) × In e endpoints × (instance_at e ≡ none))
                      ⊎ All (λ e. instance_at e ≢ some i) endpoints))))

  learned-IsFollowed :
      (i : String) (endpoints : List EndpointInfo) (before : Dict String String)
      → (after : Dict String String × Bool) → get i before ≡ none
      → IsLearned i endpoints before after
      → IsFollowed i endpoints before (if after.1 then known_url fl h s after.0 i else raised)
  unfolding known_url
  learned-IsFollowed i endpoints before (known, finished) e (inl (f, lost)) =
      rw f (inr (e, inr (refl, inl lost)))
  learned-IsFollowed i endpoints before (known, finished) e (inr (t, inl (x, m, p, g))) =
      rw (t, known_url, g) (inr (e, inl (x, m, p, refl)))
  learned-IsFollowed i endpoints before (known, finished) e (inr (t, inr (all, g))) =
      let g' : get i known ≡ none = g ∙ e in rw (t, known_url, g') (inr (e, inr (refl, inr all)))

  follow-IsFollowed :
      (r : KvawareRouter fl h s) (endpoints : List EndpointInfo) (i : String)
      → IsFollowed i endpoints r.instance_id_to_ip (follow fl h s r endpoints i).1
  unfolding follow
  follow-IsFollowed r endpoints i = elim (Option-cases (get i r.instance_id_to_ip)) [
    | inr (url, e) ↦ rw (follow, e) (inl (url, refl, refl))
    | inl e ↦
        let after = learn fl h s endpoints r.instance_id_to_ip in
        let told = learn-IsLearned i endpoints r.instance_id_to_ip in
        let goal = learned-IsFollowed i endpoints r.instance_id_to_ip after e told in
        rw (follow, e) (rw e at goal)
  ]

  too_short-below :
      (m : ℕ) (token_ids : List ℕ) (threshold : ℕ)
      → too_short m token_ids threshold ≡ true
      → m + threshold < length token_ids
  unfolding too_short
  too_short-below m token_ids threshold e = ground (arith, e)

  too_short-above :
      (m : ℕ) (token_ids : List ℕ) (threshold : ℕ)
      → too_short m token_ids threshold ≡ false
      → length token_ids ≤ m + threshold
  unfolding too_short
  too_short-above m token_ids threshold e = ground (arith, e)

  -- The router and the session router with the same key and the same ring.
  abbrev pub as_session : String → KvawareRouter fl h s → SessionRouter fl h
  as_session key r = record { session_key = key; hash_ring = r.hash_ring }

  -- the two ways of a request
  abbrev pub IsChosen :
      KvawareRouter fl h s
      → String
      → ℕ
      → List EndpointInfo
      → Dict String (RequestStats fl)
      → (String → Option String)
      → Fields
      → List ℕ
      → Layout
      → KvawareRouter fl h s × Outcome
      → Type 0
  IsChosen r key threshold endpoints stats headers body token_ids layout (r', outcome) =
      let session = Session.route_request fl h (as_session key r) endpoints stats headers body in
      (((layout ≡ [])
          ⊎ ((i : String) × (match : String × ℕ) × (others : Layout) × (layout
                ≡ (i, match) ∷ others)
              × (match.1 + threshold < length token_ids)))
        × (outcome ≡ routed session.1)
        × (r'.hash_ring ≡ session.0.hash_ring))
      ⊎ ((i : String) × (match : String × ℕ) × (others : Layout) × (layout ≡ (i, match) ∷ others)
          × (length token_ids ≤ match.1 + threshold)
          × IsFollowed i endpoints r.instance_id_to_ip outcome)

  choose-IsChosen :
      (r : KvawareRouter fl h s) (key : String) (threshold : ℕ) (endpoints : List EndpointInfo)
      → (stats : Dict String (RequestStats fl)) (headers : String → Option String) (body : Fields)
      → (token_ids : List ℕ) (layout : Layout) → r.session_key ≡ some key
      → r.threshold ≡ some threshold
      → IsChosen r key threshold endpoints stats headers body token_ids layout
          (choose fl h s r endpoints stats headers body token_ids layout)
  unfolding choose fall_back Session.route_request
  choose-IsChosen r key threshold endpoints stats headers body token_ids [] k t =
      inl (inl refl, rw k refl, refl)
  choose-IsChosen r key threshold endpoints stats headers body token_ids ((i, match) ∷ others) k t =
      elim (Bool-cases (too_short match.1 token_ids threshold)) [
        | inl short ↦
            rw (choose, t, short)
              (inl (
                inr (i, match, others, refl, too_short-below match.1 token_ids threshold short),
                rw (fall_back, k) refl,
                refl,
              ))
        | inr long ↦
            rw (choose, t, long)
              (inr (
                i,
                match,
                others,
                refl,
                too_short-above match.1 token_ids threshold long,
                follow-IsFollowed r endpoints i,
              ))
      ]

  -- With tokens, an answer of the controller, a session key and a threshold: a request that no
  -- instance has, or of which the first has fewer tokens than all but as many as the threshold, goes
  -- where the session router with the same key and ring sends it, with the same effect on the ring;
  -- without a session that is the choice by the rates of the engines, and no round robin. One of
  -- which the first instance has enough goes to the url
  -- that was noted for the instance, or, if none was, to an endpoint that tells to be it; the call
  -- raises if no endpoint does, or if one cannot be asked.
  pub route_request-IsChosen :
      (r : KvawareRouter fl h s) (key : String) (threshold : ℕ) (endpoints : List EndpointInfo)
      → (stats : Dict String (RequestStats fl)) (headers : String → Option String) (body : Fields)
      → (token_ids : List ℕ) (layout : Layout) → r.session_key ≡ some key
      → r.threshold ≡ some threshold
      → (token_ids_of fl h s r.tokenizer endpoints (find_or "prompt" (Value.str "") body)).1
        ≡ some token_ids
      → s.lookup token_ids ≡ some layout
      → IsChosen r key threshold endpoints stats headers body token_ids layout
          (route_request fl h s r endpoints stats headers body)
  unfolding route_request
  route_request-IsChosen r key threshold endpoints stats headers body token_ids layout k t made
        told =
      let tokens =
        token_ids_of fl h s r.tokenizer endpoints (find_or "prompt" (Value.str "") body) in
      rw (route_request, made, told)
        (choose-IsChosen (record r { tokenizer = tokens.0 }) key threshold endpoints stats headers
          body token_ids layout k t)
