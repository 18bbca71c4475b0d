-- ===== src/Routing/Qps.antt =====
-- `RoutingInterface._qps_routing` of src/vllm_router/routers/routing_logic.py.
use vllm_production_stack_cu.Base.{
  String, ◌≡◌, refl, Bool, true, false, Option, none, some, List, [], ◌∷◌, ◌⊎◌, inl, inr, In, All,
  string_eq, Option-cases, Bool-cases,
}
use vllm_production_stack_cu.Base.Dict.{Dict, get}
use vllm_production_stack_cu.Base.Floats.{Floats, IsOrdered}
use vllm_production_stack_cu.Discovery.{EndpointInfo, urls}
use vllm_production_stack_cu.Stats.{RequestStats}

module _ (fl : Floats) where
  open fl use {F, lt}

  -- `none` is the float infinity, above every value.
  abbrev below : F → Option F → Bool
  below q none = true
  below q (some l) = lt q l

  -- the loop over the endpoints, with `lowest_qps` and `ret`
  unfoldable pub qps_loop :
      List EndpointInfo → Dict String (RequestStats fl) → Option F → Option String → Option String
  qps_loop [] request_stats lowest ret = ret
  qps_loop (info ∷ rest) request_stats lowest ret = elim (get info.url request_stats) [
    | none ↦ some info.url
    | some stat ↦ elim (below stat.qps lowest) [
      | true ↦ qps_loop rest request_stats (some stat.qps) (some info.url)
      | false ↦ qps_loop rest request_stats lowest ret
    ]
  ]

  -- `none` is Python's `None`.
  unfoldable pub qps_routing : List EndpointInfo → Dict String (RequestStats fl) → Option String
  unfolding qps_loop
  qps_routing endpoints request_stats = qps_loop endpoints request_stats none none

  -- Every url of the list has statistics, and none of them a rate under `q`.
  abbrev pub NoneBelow : Dict String (RequestStats fl) → F → List String → Type 0
  NoneBelow request_stats q all =
      All
        (λ v.
          (stat : RequestStats fl) × (get v request_stats ≡ some stat) × (lt stat.qps q ≡ false))
        all

  -- `u` has no statistics, or no url of the list has a lower rate.
  abbrev pub IsBest : Dict String (RequestStats fl) → List String → String → Type 0
  IsBest request_stats all u =
      (get u request_stats ≡ none)
      ⊎ ((stat : RequestStats fl) × (get u request_stats ≡ some stat)
          × NoneBelow request_stats stat.qps all)

  module _ (law : IsOrdered fl) (request_stats : Dict String (RequestStats fl)) where
    -- where the loop ends that has found `u` with the rate of `s`
    abbrev Found : List EndpointInfo → String → RequestStats fl → Type 0
    Found rest u s =
        (w : String) × (qps_loop rest request_stats (some s.qps) (some u) ≡ some w)
        × ((w ≡ u) ⊎ In w (urls rest))
        × ((get w request_stats ≡ none)
            ⊎ ((stat : RequestStats fl) × (get w request_stats ≡ some stat)
                × (lt s.qps stat.qps ≡ false)
                × NoneBelow request_stats stat.qps (urls rest)))

    not-lt_trans : (a b c : F) → lt a b ≡ false → lt b c ≡ false → lt a c ≡ false
    not-lt_trans a b c p q = elim (Bool-cases (lt a c)) [
      | inl t ↦ elim (law.cotrans a b c t) [ inl x ↦ cc | inr x ↦ cc ]
      | inr f ↦ f
    ]

    not-lt_of_lt : (a b : F) → lt a b ≡ true → lt b a ≡ false
    not-lt_of_lt a b p = elim (Bool-cases (lt b a)) [
      | inl t ↦ let x = law.trans a b a p t in let y = law.irrefl a in cc
      | inr f ↦ f
    ]

    better :
        (info : EndpointInfo) (rest : List EndpointInfo) (u : String) (s t : RequestStats fl)
        → get info.url request_stats ≡ some t
        → lt t.qps s.qps ≡ true
        → Found rest info.url t
        → Found (info ∷ rest) u s
    unfolding qps_loop
    better info rest u s t known less (w, e, place, best) = (
      w,
      rw (known, qps_loop) (rw less e),
      elim place [ inl p ↦ inr (inl p) | inr p ↦ inr (inr p) ],
      elim best [
        | inl idle ↦ inl idle
        | inr (stat, k, le, all) ↦
            inr (stat, k, not-lt_trans _ _ _ (not-lt_of_lt _ _ less) le, ((t, known, le), all))
      ],
    )

    worse :
        (info : EndpointInfo) (rest : List EndpointInfo) (u : String) (s t : RequestStats fl)
        → get info.url request_stats ≡ some t
        → lt t.qps s.qps ≡ false
        → Found rest u s
        → Found (info ∷ rest) u s
    unfolding qps_loop
    worse info rest u s t known more (w, e, place, best) = (
      w,
      rw (known, qps_loop) (rw more e),
      elim place [ inl p ↦ inl p | inr p ↦ inr (inr p) ],
      elim best [
        | inl idle ↦ inl idle
        | inr (stat, k, le, all) ↦ inr (stat, k, le, ((t, known, not-lt_trans _ _ _ more le), all))
      ],
    )

    qps_loop-Found :
        (rest : List EndpointInfo) (u : String) (s : RequestStats fl)
        → get u request_stats ≡ some s
        → Found rest u s
    unfolding qps_loop
    qps_loop-Found [] u s known = (u, refl, inl refl, inr (s, known, law.irrefl s.qps, tt))
    qps_loop-Found (info ∷ rest) u s known = elim (Option-cases (get info.url request_stats)) [
      | inl e ↦ (info.url, rw (e, qps_loop) refl, inr (inl refl), inl e)
      | inr (t, e) ↦ elim (Bool-cases (lt t.qps s.qps)) [
        | inl less ↦ better info rest u s t e less (qps_loop-Found rest info.url t e)
        | inr more ↦ worse info rest u s t e more (qps_loop-Found rest u s known)
      ]
    ]

    -- With floats in order, over at least one endpoint the choice is the url of one of them, and it
    -- is idle or has the least rate, all the others having statistics.
    pub qps_routing-IsBest :
        (info : EndpointInfo) (rest : List EndpointInfo)
        → (u : String) × (qps_routing (info ∷ rest) request_stats ≡ some u)
          × In u (urls (info ∷ rest))
          × IsBest request_stats (urls (info ∷ rest)) u
    unfolding qps_routing
    qps_routing-IsBest info rest = elim (Option-cases (get info.url request_stats)) [
      | inl e ↦ (info.url, rw (e, qps_loop) refl, inl refl, inl e)
      | inr (t, e) ↦
          let (w, r, place, best) = qps_loop-Found rest info.url t e in
          (
            w,
            rw (e, qps_loop) r,
            place,
            elim best [
              | inl idle ↦ inl idle
              | inr (stat, k, le, all) ↦ inr (stat, k, ((t, e, le), all))
            ],
          )
    ]
