-- ===== src/Requests.antt =====
-- `route_general_request` of
-- src/vllm_router/services/request_service/request.py: from the body of a request to its answer.
pub mod Serving
pub mod Outcome
pub mod Progress
pub mod Prefill
pub mod Sleep
pub mod Transcriptions
mod Tests
mod Exchanges
use vllm_production_stack_cu.Base.{
  String, Bool, true, false, ◌&&◌, not, Option, none, some, List, [], ◌∷◌, filter, is_empty, ◌==◌,
  string_eq, if◌then◌else◌,
}
use vllm_production_stack_cu.Base.Dict.{Dict, get, mem}
use vllm_production_stack_cu.Base.Json.{Value, Fields, find, assign}
use vllm_production_stack_cu.Discovery.{EndpointInfo}

-- What a call ends in: the answer of the `pre_request` callback; an answer of the router itself with
-- status 400, 404 or 503, the last two with the model; an exception; or a request that is sent to a
-- url with a body. With the disaggregated router the request is handed to
-- `route_disaggregated_prefill_request` (Requests/Prefill). A body is taken as the JSON object that it holds.
pub data Reply : Type 0 where
  disaggregated : Reply
  overwritten : Reply
  missing_model : Reply
  not_found : Value → Reply
  unavailable : Value → Reply
  raised : Reply
  sent : String → Fields → Reply

-- what the call reads of the service discovery: `aliases` and `has_ever_seen_model` are `none`
-- where the object has no such attribute
pub record Services : Type 0 where
  pub endpoints : List EndpointInfo
  pub aliases : Option (Dict String String)
  pub has_ever_seen_model : Option (String → Bool)

-- `if aliases and requested_model in aliases`
unfoldable pub alias_of : Services → String → Option String
alias_of services requested_model = elim services.aliases [
  | none ↦ none
  | some aliases ↦ get requested_model aliases
]

unfoldable pub model_ever_existed : Services → String → Bool
model_ever_existed services requested_model = elim services.has_ever_seen_model [
  | none ↦ false
  | some seen ↦ seen requested_model
]

-- `if not request_endpoint`: no id and the empty id alike
abbrev pub asks_for : Option String → Option String
asks_for none = none
asks_for (some id) = if id == "" then none else some id

-- the two filters
unfoldable pub can_serve : String → Option String → EndpointInfo → Bool
can_serve requested_model none x = mem requested_model x.model_names && not x.sleep
can_serve requested_model (some id) x =
    mem requested_model x.model_names && (x.id == id) && not x.sleep

-- the answer when no endpoint is left
unfoldable pub no_endpoint : Services → String → Reply
unfolding model_ever_existed
no_endpoint services requested_model =
    if model_ever_existed services requested_model
    then Reply.unavailable (Value.str requested_model)
    else Reply.not_found (Value.str requested_model)

-- A list or an object cannot be looked up in a dict or a set.
abbrev hashable : Value → Bool
hashable (Value.arr is) = false
hashable (Value.obj fs) = false
hashable _ = true

-- whether the model is looked up in one
unfoldable pub looks_up : Services → Bool
looks_up services = elim services.has_ever_seen_model [
  | some seen ↦ true
  | none ↦ elim services.aliases [ none ↦ false | some aliases ↦ not (is_empty aliases) ]
]

-- a requested model that is no string, which no alias, engine or set of seen models has
unfoldable pub unnamed : Services → Value → Reply
unfolding looks_up
unnamed services v =
    if not (hashable v) && looks_up services then Reply.raised else Reply.not_found v

-- `router` is the call of `route_request` on the endpoints that are left, `none` if it raises.
module _ (router : List EndpointInfo → Fields → Option String) where
  -- the part from the filters on
  unfoldable pub choose : Services → Option String → String → Fields → Fields → Reply
  unfolding can_serve no_endpoint
  choose services id requested_model request_json body =
      let left = filter (can_serve requested_model id) services.endpoints in
      elim left [
        | [] ↦ no_endpoint services requested_model
        | x ∷ xs ↦ elim id [
          | some i ↦ Reply.sent x.url body
          | none ↦ elim (router (x ∷ xs) request_json) [
            | none ↦ Reply.raised
            | some server_url ↦ Reply.sent server_url body
          ]
        ]
      ]

  -- the part after the rewriting: the alias is replaced in the body too
  unfoldable pub resolve : Services → Option String → String → Fields → Reply
  unfolding alias_of choose
  resolve services id requested_model request_json = elim (alias_of services requested_model) [
    | none ↦ choose services id requested_model request_json request_json
    | some model ↦
        let body = assign "model" (Value.str model) request_json in
        choose services id model body body
  ]

  -- `pre_request` tells whether the callback answers, `rewrite` is the rewriter with the parser of
  -- its result, `none` if that is no JSON. The Boolean tells whether the router is a
  -- DisaggregatedPrefillRouter.
  unfoldable pub route_general_request :
      Bool → (Fields → Bool) → (Fields → Option Fields) → Services → Option String → Fields → Reply
  unfolding resolve unnamed
  route_general_request true pre_request rewrite services id request_json = Reply.disaggregated
  route_general_request false pre_request rewrite services id request_json =
      if pre_request request_json then Reply.overwritten else (elim (find "model" request_json) [
        | none ↦ Reply.missing_model
        | some Value.null ↦ Reply.missing_model
        | some (Value.str requested_model) ↦ elim (rewrite request_json) [
          | none ↦ Reply.raised
          | some rewritten ↦ resolve services (asks_for id) requested_model rewritten
        ]
        | some v ↦ elim (rewrite request_json) [
          | none ↦ Reply.raised
          | some rewritten ↦ unnamed services v
        ]
      ])
