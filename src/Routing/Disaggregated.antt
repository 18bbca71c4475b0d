-- ===== src/Routing/Disaggregated.antt =====
-- `DisaggregatedPrefillRouter` of src/vllm_router/routers/routing_logic.py.
use vllm_production_stack_cu.Base.{
  String, ◌≡◌, refl, Bool, true, false, Option, none, some, List, [], ◌∷◌, filter, In, All,
  Bool-cases, Option-cases, ◌⊎◌, ap, arith, string_eq, if◌then◌else◌, inl, inr,
}
use vllm_production_stack_cu.Base.Dict.{mem, In-mem, mem-In}
use vllm_production_stack_cu.Base.Json.{Value, Fields, find, find_or, is_one}
use vllm_production_stack_cu.Discovery.{EndpointInfo}

pub record DisaggregatedPrefill : Type 0 where
  -- `none` is None, as the command line leaves it
  pub prefill_model_labels : Option (List String)
  pub decode_model_labels : Option (List String)

-- e.model_label in labels, where a label may be None
unfoldable pub has_label : List String → EndpointInfo → Bool
has_label labels e = elim e.model_label [ none ↦ false | some l ↦ mem l labels ]

-- `none` is the IndexError of `[0]` on an empty list.
abbrev pub first_url : List EndpointInfo → Option String
first_url [] = none
first_url (e ∷ es) = some e.url

unfoldable pub is_prefill : Fields → Bool
is_prefill request_json = is_one (find_or "max_tokens" (Value.num 0) request_json)

unfoldable pub route_with : List String → List String → List EndpointInfo → Fields → Option String
unfolding has_label is_prefill
route_with prefill decode endpoints request_json =
    let prefiller_endpoints = filter (λ e. has_label prefill e) endpoints in
    let decoder_endpoints = filter (λ e. has_label decode e) endpoints in
    if is_prefill request_json then first_url prefiller_endpoints else first_url decoder_endpoints

-- Labels that are None raise a TypeError at the first endpoint, and without endpoints there is none
-- to index.
unfoldable pub route_request : DisaggregatedPrefill → List EndpointInfo → Fields → Option String
unfolding route_with
route_request r endpoints request_json = elim r.prefill_model_labels [
  | none ↦ none
  | some prefill ↦ elim r.decode_model_labels [
    | none ↦ none
    | some decode ↦ route_with prefill decode endpoints request_json
  ]
]

first_url-filter :
    (p : EndpointInfo → Bool) (es : List EndpointInfo)
    → ((e : EndpointInfo) × (first_url (filter p es) ≡ some e.url) × In e es × (p e ≡ true))
      ⊎ ((first_url (filter p es) ≡ none) × All (λ e. p e ≡ false) es)
first_url-filter p [] = inr (refl, tt)
first_url-filter p (e ∷ es) = elim (Bool-cases (p e)) [
  | inl t ↦ inl (e, rw (t, filter) refl, inl refl, t)
  | inr f ↦ elim (first_url-filter p es) [
    | inl (x, r, m, t) ↦ inl (x, rw (f, filter) r, inr m, t)
    | inr (r, all) ↦ inr (rw (f, filter) r, (f, all))
  ]
]

-- The endpoint has a label, and it is one of these.
abbrev pub HasLabel : List String → EndpointInfo → Type 0
HasLabel labels e = (l : String) × (e.model_label ≡ some l) × In l labels

-- max_tokens == 1, which holds of `True` too
abbrev pub IsOne : Option Value → Type 0
IsOne o = (o ≡ some (Value.num 1)) ⊎ (o ≡ some (Value.bool true))

-- The labels of the stage that a request is in: a request for one token is for a prefiller.
abbrev pub IsStage : List String → List String → Fields → List String → Type 0
IsStage prefill decode request_json labels =
    (IsOne (find "max_tokens" request_json) × (labels ≡ prefill))
    ⊎ ((¬ IsOne (find "max_tokens" request_json)) × (labels ≡ decode))

-- the url of an endpoint with a label, or nothing where there is no such endpoint
abbrev pub IsFirst : List String → List EndpointInfo → Option String → Type 0
IsFirst labels endpoints answer =
    ((e : EndpointInfo) × (answer ≡ some e.url) × In e endpoints × HasLabel labels e)
    ⊎ ((answer ≡ none) × All (λ e. ¬ HasLabel labels e) endpoints)

is_one-IsOne :
    (o : Option Value) → is_one (elim o [ none ↦ Value.num 0 | some w ↦ w ]) ≡ true → IsOne o
is_one-IsOne none e = cc
is_one-IsOne (some (Value.num n)) e =
    let q : n ≡ 1 = ground (arith, e) in inl (ap (λ m. some (Value.num m)) q)
is_one-IsOne (some (Value.bool true)) e = inr refl
is_one-IsOne (some (Value.bool false)) e = cc
is_one-IsOne (some v) e = cc

IsOne-one :
    (o : Option Value) → IsOne o → is_one (elim o [ none ↦ Value.num 0 | some w ↦ w ]) ≡ true
IsOne-one o (inl e) = rw e refl
IsOne-one o (inr e) = rw e refl

has_label-HasLabel :
    (labels : List String) (e : EndpointInfo) → has_label labels e ≡ true → HasLabel labels e
unfolding has_label
has_label-HasLabel labels e h = elim (Option-cases e.model_label) [
  | inl no_label ↦ let wrong : false ≡ true = rw (has_label, no_label) at h in cc
  | inr (l, q) ↦ (l, q, In-mem l labels (rw (has_label, q) at h))
]

HasLabel-has_label :
    (labels : List String) (e : EndpointInfo) → HasLabel labels e → has_label labels e ≡ true
unfolding has_label
HasLabel-has_label labels e (l, q, m) = rw (has_label, q) (mem-In l labels m)

without-HasLabel :
    (labels : List String) (es : List EndpointInfo)
    → All (λ e. has_label labels e ≡ false) es
    → All (λ e. ¬ HasLabel labels e) es
without-HasLabel labels [] y = tt
without-HasLabel labels (e ∷ es) (no_label, y) =
    (λ h. let yes = HasLabel-has_label labels e h in cc, without-HasLabel labels es y)

first_url-IsFirst :
    (labels : List String) (es : List EndpointInfo)
    → IsFirst labels es (first_url (filter (λ e. has_label labels e) es))
first_url-IsFirst labels es = elim (first_url-filter (λ e. has_label labels e) es) [
  | inl (e, answer, m, t) ↦ inl (e, answer, m, has_label-HasLabel labels e t)
  | inr (answer, y) ↦ inr (answer, without-HasLabel labels es y)
]

route_with-IsStage :
    (prefill decode : List String) (endpoints : List EndpointInfo) (request_json : Fields)
    → (labels : List String) × IsStage prefill decode request_json labels
      × IsFirst labels endpoints (route_with prefill decode endpoints request_json)
unfolding route_with is_prefill
route_with-IsStage prefill decode endpoints request_json =
    elim (Bool-cases (is_prefill request_json)) [
      | inl t ↦ (
        prefill,
        inl (is_one-IsOne (find "max_tokens" request_json) t, refl),
        rw (t, route_with) (first_url-IsFirst prefill endpoints),
      )
      | inr f ↦ (
        decode,
        inr (λ y. let t = IsOne-one (find "max_tokens" request_json) y in cc, refl),
        rw (f, route_with) (first_url-IsFirst decode endpoints),
      )
    ]

-- With labels for both stages, the answer is the url of an endpoint with a label of the stage that
-- the request is in, that of the prefillers for a request with a "max_tokens" of one and that of
-- the decoders for any other, and the call fails only when no endpoint has such a label. Where the
-- labels of a stage are None it fails.
pub route_request-IsStage :
    (r : DisaggregatedPrefill) (endpoints : List EndpointInfo) (request_json : Fields)
    → ((prefill decode labels : List String) × (r.prefill_model_labels ≡ some prefill)
        × (r.decode_model_labels ≡ some decode)
        × IsStage prefill decode request_json labels
        × IsFirst labels endpoints (route_request r endpoints request_json))
      ⊎ (((r.prefill_model_labels ≡ none) ⊎ (r.decode_model_labels ≡ none))
          × (route_request r endpoints request_json ≡ none))
unfolding route_request
route_request-IsStage r endpoints request_json = elim (Option-cases r.prefill_model_labels) [
  | inl a ↦ inr (inl a, rw (route_request, a) refl)
  | inr (prefill, a) ↦ elim (Option-cases r.decode_model_labels) [
    | inl b ↦ inr (inr b, rw (route_request, a, b) refl)
    | inr (decode, b) ↦
        let (labels, stage, answer) = route_with-IsStage prefill decode endpoints request_json in
        inl (prefill, decode, labels, a, b, stage, rw (route_request, a, b) answer)
  ]
]
