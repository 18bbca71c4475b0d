-- ===== src/Requests/Transcriptions/Forward.antt =====
-- Which engine gets a transcription, and what of the form it gets.
use vllm_production_stack_cu.Base.{
  append-empty, In-append, String, ◌≡◌, refl, Bool, true, false, not, ◌&&◌, Option, some, List, [],
  ◌∷◌, In, All, arith, ◌==◌, string_eq, if◌then◌else◌, ◌⊎◌, inl, inr,
}
use vllm_production_stack_cu.Base.Dict.{Dict, get, mem}
use vllm_production_stack_cu.Discovery.{EndpointInfo}
use vllm_production_stack_cu.Requests.Transcriptions.Fields.{AsAsked, form_data-AsAsked}
use vllm_production_stack_cu.Requests.Transcriptions.{
  Upload, Post, Exchange, Reply, no_backend, per_name, transcription_endpoints, form_data, reply_of,
  temperature_of, proxy, route_general_transcriptions,
}

-- The model is among the names of an engine that is awake.
unfoldable pub can_transcribe : String → EndpointInfo → Bool
can_transcribe model e = mem model e.model_names && not e.sleep

per_name-empty :
    (model : String) (e : EndpointInfo) (names : List String)
    → per_name model e names ≡ []
    → (mem model names && not e.sleep) ≡ false
unfolding per_name mem
per_name-empty model e [] p = refl
per_name-empty model e (n ∷ names) p =
    ground (
      arith,
      p,
      per_name-empty model e names,
      string_eq.same_iff n model,
      string_eq.same_iff model n,
    )

In-branch :
    (b : Bool) (x e : EndpointInfo) (rest : List EndpointInfo)
    → In x (if b then e ∷ rest else rest)
    → ((b ≡ true) × (x ≡ e)) ⊎ In x rest
In-branch true x e rest (inl same) = inl (refl, same)
In-branch true x e rest (inr m) = inr m
In-branch false x e rest m = inr m

In-per_name :
    (model : String) (e x : EndpointInfo) (names : List String)
    → In x (per_name model e names)
    → (x ≡ e) × ((mem model names && not e.sleep) ≡ true)
unfolding per_name mem
In-per_name model e x [] m = elim m [ ]
In-per_name model e x (n ∷ names) m =
    elim (In-branch (model == n && not e.sleep) x e (per_name model e names) m) [
      | inl (here, same) ↦
          (same, ground (arith, here, string_eq.same_iff n model, string_eq.same_iff model n))
      | inr later ↦
          let (same, able) = In-per_name model e x names later in (same, ground (arith, able))
    ]

transcription_endpoints-empty :
    (model : String) (endpoints : List EndpointInfo)
    → transcription_endpoints model endpoints ≡ []
    → All (λ e. can_transcribe model e ≡ false) endpoints
unfolding transcription_endpoints can_transcribe
transcription_endpoints-empty model [] p = tt
transcription_endpoints-empty model (e ∷ endpoints) p =
    let (here, later) =
      append-empty (per_name model e e.model_names) (transcription_endpoints model endpoints) p in
    (per_name-empty model e e.model_names here, transcription_endpoints-empty model endpoints later)

In-transcription_endpoints :
    (model : String) (x : EndpointInfo) (endpoints : List EndpointInfo)
    → In x (transcription_endpoints model endpoints)
    → In x endpoints × (can_transcribe model x ≡ true)
unfolding transcription_endpoints can_transcribe
In-transcription_endpoints model x [] m = elim m [ ]
In-transcription_endpoints model x (e ∷ endpoints) m =
    elim (In-append x (per_name model e e.model_names) (transcription_endpoints model endpoints)
      m) [
        | inl here ↦
            let (same, able) = In-per_name model e x e.model_names here in (inl same, rw same able)
        | inr later ↦
            let (place, able) = In-transcription_endpoints model x endpoints later in
            (inr place, able)
      ]

-- The router answers with the url of one of the endpoints that it is given.
abbrev pub IsRouter : (List EndpointInfo → Option String) → Type 0
IsRouter router =
    (e : EndpointInfo) (rest : List EndpointInfo)
    → (x : EndpointInfo) × In x (e ∷ rest) × (router (e ∷ rest) ≡ some x.url)

endpoints-cases :
    (xs : List EndpointInfo)
    → (xs ≡ []) ⊎ ((x : EndpointInfo) × (rest : List EndpointInfo) × (xs ≡ x ∷ rest))
endpoints-cases [] = inl refl
endpoints-cases (x ∷ rest) = inr (x, rest, refl)

module _ (lower : String → String) (router : List EndpointInfo → Option String)
    (str_float : String → Option String) (send : Post → Exchange) where
  -- the two ends of a request with a complete form
  abbrev pub IsForwarded :
      List EndpointInfo
      → String
      → Upload
      → String
      → Dict String String
      → Option String
      → List Post × Reply
      → Type 0
  IsForwarded endpoints request_id file model texts temperature result =
      (All (λ e. can_transcribe model e ≡ false) endpoints
        × (result.0 ≡ [])
        × (result.1 ≡ no_backend model))
      ⊎ ((e : EndpointInfo) × (post : Post) × In e endpoints
          × (can_transcribe model e ≡ true)
          × (post.url ≡ e.url)
          × (post.file ≡ file)
          × AsAsked model texts temperature post.fields
          × (result.0 ≡ post ∷ [])
          × (result.1 ≡ reply_of lower request_id (send post)))

  proxy-IsForwarded :
      (endpoints : List EndpointInfo) (request_id endpoint : String) (file : Upload)
      (model : String)
      → (texts : Dict String String) (temperature : Option String) → IsRouter router
      → IsForwarded endpoints request_id file model texts temperature (
          proxy lower router str_float send endpoints request_id endpoint file model texts
            temperature)
  unfolding proxy
  proxy-IsForwarded endpoints request_id endpoint file model texts temperature law =
      elim (endpoints-cases (transcription_endpoints model endpoints)) [
        | inl left ↦
            rw (proxy, left) (inl (transcription_endpoints-empty model endpoints left, refl, refl))
        | inr (x, rest, left) ↦
            let (e, place, chosen) = law x rest in
            let (offered, able) = In-transcription_endpoints model e endpoints (rw left place) in
            let post : Post = record {
              url = e.url;
              endpoint = endpoint;
              file = file;
              fields = form_data model texts temperature;
            } in
            rw (proxy, left, chosen)
              (inr (
                e,
                post,
                offered,
                able,
                refl,
                refl,
                form_data-AsAsked model texts temperature,
                refl,
                refl,
              ))
      ]

  pub route_general_transcriptions-IsForwarded :
      (endpoints : List EndpointInfo) (id fresh endpoint : String) (file : Upload) (model : String)
      → (texts : Dict String String) (temperature : Option String) → IsRouter router
      → get "model" texts ≡ some model
      → temperature_of lower router str_float send texts ≡ some temperature
      → IsForwarded endpoints id file model texts temperature (
          route_general_transcriptions lower router str_float send endpoints
            (some id)
            fresh
            endpoint
            (record { file = some file; texts = texts }))
  unfolding route_general_transcriptions
  route_general_transcriptions-IsForwarded endpoints id fresh endpoint file model texts temperature
        law named read =
      rw (route_general_transcriptions, named, read)
        (proxy-IsForwarded endpoints id endpoint file model texts temperature law)
