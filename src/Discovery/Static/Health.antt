-- ===== src/Discovery/Static/Health.antt =====
-- What a health check of the static engines does to the engines on offer.
use vllm_production_stack_cu.Base.{
  ℕ, suc, ◌+◌, ◌<◌, String, ◌≡◌, refl, ap, Bool, true, false, some, List, [], ◌∷◌, length,
  get_elem?, arith, string_eq, Bool-cases, In, inl, inr, ◌⊎◌,
}
use vllm_production_stack_cu.Base.Dict.{mem}
use vllm_production_stack_cu.Discovery.{EndpointInfo}
use vllm_production_stack_cu.Discovery.Static.{
  StaticDiscovery, label_at, check_loop, get_unhealthy_endpoint_hashes, check_model_health,
  set_hashes, static_endpoint, endpoint_at, endpoint_loop, get_endpoint_info,
}

module _ (md5 : String → String → String) (is_model_healthy : String → String → String → Bool) where
  -- The engine is that of a url and a model of the lists, which passed the check with their type.
  abbrev pub IsHealthy : EndpointInfo → List String → List String → List String → Type 0
  IsHealthy e (url ∷ urls) (model ∷ models) (model_type ∷ types) =
      ((e.url ≡ url)
        × (e.model_names ≡ model ∷ [])
        × (is_model_healthy url model model_type ≡ true))
      ⊎ IsHealthy e urls models types
  IsHealthy e _ _ _ = ⊥

  -- Every position below `n` has a label and an identifier.
  abbrev pub IsFilled : StaticDiscovery → ℕ → Type 0
  IsFilled s n =
      (i : ℕ)
      → i < n
      → ((l : String) × (label_at s.model_labels i ≡ some l))
        × ((id : String) × (get_elem? s.engines_id i ≡ some id))

  endpoint_at-filled :
      (s : StaticDiscovery) (now i n : ℕ) (url model : String)
      → IsFilled s n
      → i < n
      → (e : EndpointInfo) × (endpoint_at md5 is_model_healthy s now i url model ≡ some e)
        × (e.url ≡ url)
        × (e.model_names ≡ model ∷ [])
  unfolding endpoint_at static_endpoint
  endpoint_at-filled s now i n url model filled lt =
      let ((l, label), (id, drawn)) = filled i lt in
      (
        static_endpoint s.added_timestamp now url model l id,
        rw (label, drawn, endpoint_at) refl,
        refl,
        refl,
      )

  mem-check_loop :
      (x url model t : String) (urls models types : List String)
      → mem x (check_loop md5 is_model_healthy urls models types) ≡ true
      → mem x (check_loop md5 is_model_healthy (url ∷ urls) (model ∷ models) (t ∷ types)) ≡ true
  unfolding check_loop mem
  mem-check_loop x url model t urls models types h = ground arith

  self-check_loop :
      (url model t : String) (urls models types : List String)
      → is_model_healthy url model t ≡ false
      → mem
          (md5 url model)
          (check_loop md5 is_model_healthy (url ∷ urls) (model ∷ models) (t ∷ types))
        ≡ true
  unfolding check_loop mem
  self-check_loop url model t urls models types h =
      ground (arith, string_eq.same_iff (md5 url model) (md5 url model))

  -- The loop from a position on returns, and offers engines that passed.
  abbrev Offers : StaticDiscovery → ℕ → ℕ → List String → List String → List String → Type 0
  Offers s now i urls models types =
      (es : List EndpointInfo) × (endpoint_loop md5 is_model_healthy s now i urls models ≡ some es)
      × ((e : EndpointInfo) → In e es → IsHealthy e urls models types)

  endpoint_loop-Offers :
      (s : StaticDiscovery) (now i n : ℕ) (urls models types : List String)
      → length models ≡ length urls
      → length types ≡ length urls
      → i + length urls ≡ n
      → IsFilled s n
      → ((x : String)
          → mem x (check_loop md5 is_model_healthy urls models types) ≡ true
          → mem x s.unhealthy_endpoint_hashes ≡ true)
      → Offers s now i urls models types
  unfolding endpoint_loop
  endpoint_loop-Offers s now i n [] models types p q r filled known = ([], refl, λ e m. elim m [ ])
  endpoint_loop-Offers s now i n (u ∷ us) [] types p q r filled known = absurd (omega arith)
  endpoint_loop-Offers s now i n (u ∷ us) (m ∷ ms) [] p q r filled known = absurd (omega arith)
  endpoint_loop-Offers s now i n (u ∷ us) (m ∷ ms) (t ∷ ts) p q r filled known =
      let (es, rest, passed) =
        endpoint_loop-Offers s now (suc i) n us ms ts (omega arith) (omega arith) (omega arith)
          filled (λ x h. known x (mem-check_loop x u m t us ms ts h)) in
      elim (Bool-cases (mem (md5 u m) s.unhealthy_endpoint_hashes)) [
        | inl sick ↦ (es, rw (sick, rest) refl, λ e at. inr (passed e at))
        | inr well ↦
            let (e', made, same_url, same_model) =
              endpoint_at-filled s now i n u m filled (omega arith) in
            let healthy : is_model_healthy u m t ≡ true = ground (
              arith,
              known (md5 u m),
              self-check_loop u m t us ms ts,
              Bool-cases (is_model_healthy u m t),
            ) in
            (
              e' ∷ es,
              rw (well, made, rest) refl,
              λ e at. elim at [
                | inl same ↦ inl (rw same (same_url, same_model, healthy))
                | inr later ↦ inr (passed e later)
              ],
            )
      ]

  -- After a health check of a discovery with a model, a type, a label and an identifier for each
  -- url, the call for the endpoints returns, and offers only engines that passed the check.
  pub get_endpoint_info-IsHealthy :
      (s : StaticDiscovery) (now : ℕ) (types : List String)
      → s.model_types ≡ some types
      → length s.models ≡ length s.urls
      → length types ≡ length s.urls
      → IsFilled s (length s.urls)
      → (es : List EndpointInfo) × (get_endpoint_info md5 is_model_healthy
            (check_model_health md5 is_model_healthy s)
            now
          ≡ some es)
        × ((e : EndpointInfo) → In e es → IsHealthy e s.urls s.models types)
  unfolding get_endpoint_info check_model_health get_unhealthy_endpoint_hashes
  get_endpoint_info-IsHealthy s now types typed p q filled =
      let s' : StaticDiscovery = record s {
        unhealthy_endpoint_hashes = check_loop md5 is_model_healthy s.urls s.models types;
      } in
      let found : get_unhealthy_endpoint_hashes md5 is_model_healthy s
          ≡ some (check_loop md5 is_model_healthy s.urls s.models types) =
        rw (typed, get_unhealthy_endpoint_hashes) refl in
      let checked : check_model_health md5 is_model_healthy s ≡ s' = ap (set_hashes s) found in
      let (es, e, passed) =
        endpoint_loop-Offers s' now 0 (length s.urls) s.urls s.models types p q (omega arith) filled
          (λ x h. h) in
      (es, rw checked e, passed)
