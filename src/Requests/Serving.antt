-- ===== src/Requests/Serving.antt =====
-- Which engine may serve a model, and the answers when there is none, beside the filters of
-- `route_general_request`.
use vllm_production_stack_cu.Base.{
  String, ◌≡◌, refl, ◌∙◌, Bool, true, false, Option, none, some, List, [], ◌∷◌, filter, arith, ◌==◌,
  string_eq, Bool-cases, Option-cases, In, All, inl, inr, ◌⊎◌,
}
use vllm_production_stack_cu.Base.Dict.{get, In-mem, mem-In}
use vllm_production_stack_cu.Base.Json.{Value, Fields, assign}
use vllm_production_stack_cu.Discovery.{EndpointInfo}
use vllm_production_stack_cu.Requests.{
  Reply, Services, model_ever_existed, asks_for, can_serve, no_endpoint,
}

-- The alias of a model in the table of aliases.
abbrev renamed : Services → String → Option String
renamed services m = elim services.aliases [ none ↦ none | some aliases ↦ get m aliases ]

-- the model that is looked for
abbrev pub resolved : Services → String → String
resolved services m = elim (renamed services m) [ none ↦ m | some model ↦ model ]

-- the body that is sent
abbrev pub resolved_body : Services → String → Fields → Fields
resolved_body services m json = elim (renamed services m) [
  | none ↦ json
  | some model ↦ assign "model" (Value.str model) json
]

-- The request asks for no engine, or for this one.
abbrev IsAsked : Option String → EndpointInfo → Type 0
IsAsked none e = Unit
IsAsked (some id) e = (id ≡ "") ⊎ (e.id ≡ id)

-- The engine is awake, has the model, and is the one asked for.
abbrev Serves : String → Option String → EndpointInfo → Type 0
Serves model id e = In model e.model_names × (e.sleep ≡ false) × IsAsked id e

-- The discovery remembers the model, or it does not, or it has no memory.
abbrev IsSeen : Services → String → Type 0
IsSeen services model =
    (seen : String → Bool) × (services.has_ever_seen_model ≡ some seen) × (seen model ≡ true)

abbrev IsUnseen : Services → String → Type 0
IsUnseen services model =
    (services.has_ever_seen_model ≡ none)
    ⊎ ((seen : String → Bool) × (services.has_ever_seen_model ≡ some seen) × (seen model ≡ false))

-- The request goes to an engine that serves the model, or no engine does and the answer tells whether
-- one ever did.
abbrev pub IsServed : Services → Option String → String → Fields → Reply → Type 0
IsServed services id model body reply =
    ((e : EndpointInfo) × In e services.endpoints
      × Serves model id e
      × (reply ≡ Reply.sent e.url body))
    ⊎ (All (λ e. ¬ Serves model id e) services.endpoints
        × ((IsSeen services model × (reply ≡ Reply.unavailable (Value.str model)))
            ⊎ (IsUnseen services model × (reply ≡ Reply.not_found (Value.str model)))))

can_serve-Serves :
    (model : String) (id : Option String) (e : EndpointInfo)
    → can_serve model (asks_for id) e ≡ true
    → Serves model id e
unfolding can_serve
can_serve-Serves model none e h =
    (In-mem model e.model_names (ground (arith, h)), ground (arith, h), tt)
can_serve-Serves model (some id) e h = elim (Bool-cases (id == "")) [
  | inl empty ↦
      let h' : can_serve model none e ≡ true = rw empty at h in
      (
        In-mem model e.model_names (ground (arith, h')),
        ground (arith, h'),
        inl ((string_eq.same_iff id "").0 empty),
      )
  | inr given ↦
      let h' : can_serve model (some id) e ≡ true = rw given at h in
      (
        In-mem model e.model_names (ground (arith, h')),
        ground (arith, h'),
        inr ((string_eq.same_iff e.id id).0 (ground (arith, h'))),
      )
]

Serves-can_serve :
    (model : String) (id : Option String) (e : EndpointInfo)
    → Serves model id e
    → can_serve model (asks_for id) e ≡ true
unfolding can_serve
Serves-can_serve model none e (has, awake, asked) =
    ground (arith, mem-In model e.model_names has, awake)
Serves-can_serve model (some id) e (has, awake, inl empty) =
    let test : (id == "") ≡ true = (string_eq.same_iff id "").1 empty in
    rw test (ground (arith, mem-In model e.model_names has, awake))
Serves-can_serve model (some id) e (has, awake, inr same) = elim (Bool-cases (id == "")) [
  | inl empty ↦ rw empty (ground (arith, mem-In model e.model_names has, awake))
  | inr given ↦
      rw given
        (ground (arith, mem-In model e.model_names has, awake, (string_eq.same_iff e.id id).1 same))
]

none-Serves :
    (model : String) (id : Option String) (es : List EndpointInfo)
    → All (λ e. can_serve model (asks_for id) e ≡ false) es
    → All (λ e. ¬ Serves model id e) es
none-Serves model id [] y = tt
none-Serves model id (e ∷ es) (unable, y) =
    (λ s. let able = Serves-can_serve model id e s in cc, none-Serves model id es y)

no_endpoint-IsSeen :
    (services : Services) (model : String)
    → (IsSeen services model × (no_endpoint services model ≡ Reply.unavailable (Value.str model)))
      ⊎ (IsUnseen services model × (no_endpoint services model ≡ Reply.not_found (Value.str model)))
unfolding no_endpoint model_ever_existed
no_endpoint-IsSeen services model = elim (Option-cases services.has_ever_seen_model) [
  | inl e ↦ inr (inl e, rw (e, no_endpoint, model_ever_existed) refl)
  | inr (seen, e) ↦ elim (Bool-cases (seen model)) [
    | inl t ↦ inl ((seen, e, t), rw (e, no_endpoint, model_ever_existed, t) refl)
    | inr f ↦ inr (inr (seen, e, f), rw (e, no_endpoint, model_ever_existed, f) refl)
  ]
]

-- what the two filters leave, and the answer
abbrev pub IsFiltered : Services → Option String → String → Fields → Reply → Type 0
IsFiltered services asked model body reply =
    ((e : EndpointInfo) × In e services.endpoints
      × (can_serve model asked e ≡ true)
      × (reply ≡ Reply.sent e.url body))
    ⊎ (All (λ e. can_serve model asked e ≡ false) services.endpoints
        × (reply ≡ no_endpoint services model))

pub IsFiltered-IsServed :
    (services : Services) (id : Option String) (model : String) (body : Fields) (reply : Reply)
    → IsFiltered services (asks_for id) model body reply
    → IsServed services id model body reply
IsFiltered-IsServed services id model body reply (inl (e, place, able, sent)) =
    inl (e, place, can_serve-Serves model id e able, sent)
IsFiltered-IsServed services id model body reply (inr (unable, answer)) = inr (
  none-Serves model id services.endpoints unable,
  elim (no_endpoint-IsSeen services model) [
    | inl (seen, q) ↦ inl (seen, answer ∙ q)
    | inr (unseen, q) ↦ inr (unseen, answer ∙ q)
  ],
)

pub filter-empty :
    {A : Type 0} (p : A → Bool) (xs : List A) → filter p xs ≡ [] → All (λ x. p x ≡ false) xs
filter-empty p [] e = tt
filter-empty p (x ∷ xs) e = elim (Bool-cases (p x)) [
  | inl t ↦ ground (arith, e, t)
  | inr f ↦ (f, filter-empty p xs (ground (arith, e, f)))
]

-- the endpoints that are left, all at once or with a first one
pub left-cases : {A : Type 0} (xs : List A) → (xs ≡ []) ⊎ ((y : A) × (ys : List A) × (xs ≡ y ∷ ys))
left-cases [] = inl refl
left-cases (y ∷ ys) = inr (y, ys, refl)
