-- ===== src/Routing/KvAware.antt =====
-- `KvawareRouter` of src/vllm_router/routers/routing_logic.py: a request goes where the longest
-- prefix of it is cached, as the LMCache controller tells.
pub mod Address
pub mod Choice
mod Tests
use vllm_production_stack_cu.Base.{
  ℕ, ◌-◌, String, Bool, true, false, Option, none, some, List, [], ◌∷◌, length, ltb, string_eq,
  if◌then◌else◌,
}
use vllm_production_stack_cu.Base.Dict.{Dict, get, put}
use vllm_production_stack_cu.Base.Floats.{Floats}
use vllm_production_stack_cu.Base.Json.{Value, Fields, find_or}
use vllm_production_stack_cu.Discovery.{EndpointInfo, urls}
use vllm_production_stack_cu.Stats.{RequestStats}
use vllm_production_stack_cu.Routing.Qps.{qps_routing}
use vllm_production_stack_cu.Routing.Ring.{HashRing, update_hash_ring}
use vllm_production_stack_cu.Routing.Session.{extract_session_id}
use vllm_production_stack_cu.Routing.KvAware.Address.{query_ip}

-- `layout_info`: the instances that have the prefix, with a location and the number of tokens
abbrev pub Layout : Type 0
Layout = Dict String (String × ℕ)

-- What is called outside: the tokenizer of a model and its encoding of a prompt, the engine's
-- /tokenize, and the controller's two answers. Each is `none` for an exception, a lookup also for
-- the answer `None`, which has no `layout_info`.
pub record Services : Type 1 where
  pub Tokenizer : Type 0
  pub from_pretrained : String → Option Tokenizer
  pub encode : Tokenizer → Value → Option (List ℕ)
  pub tokenize : String → String → Value → Option (List ℕ)
  pub lookup : List ℕ → Option Layout
  pub query_instance : String → Option String

-- how a call ends: with the url, which may be Python's `None`, or with an exception
pub data Outcome : Type 0 where
  routed : Option String → Outcome
  raised : Outcome

-- matched_tokens < max(len(token_ids) - self.threshold, 0), on numbers of at least 0
unfoldable pub too_short : ℕ → List ℕ → ℕ → Bool
too_short matched_tokens token_ids threshold = ltb matched_tokens (length token_ids - threshold)

-- endpoints[0].model_names[0], `none` for an IndexError
abbrev pub first_model : List EndpointInfo → Option String
first_model [] = none
first_model (e ∷ rest) = elim e.model_names [ [] ↦ none | m ∷ names ↦ some m ]

module _ (fl : Floats) (h : HashRing) (s : Services) where
  open h use {Ring, get_node}
  open s use {Tokenizer, from_pretrained, encode, tokenize, lookup, query_instance}

  pub record KvawareRouter : Type 0 where
    pub session_key : Option String
    pub hash_ring : Ring
    pub instance_id_to_ip : Dict String String
    pub tokenizer : Option Tokenizer
    -- `none` is the `None` that a reconfiguration without it leaves
    pub threshold : Option ℕ

  unfoldable pub new_kvaware_router : Option String → Option ℕ → KvawareRouter
  new_kvaware_router session_key kv_aware_threshold = record {
    session_key = session_key;
    hash_ring = h.empty;
    instance_id_to_ip = [];
    tokenizer = none;
    threshold = kv_aware_threshold;
  }

  -- the remote fallback
  unfoldable pub remote_tokens : List EndpointInfo → Value → Option (List ℕ)
  remote_tokens [] prompt = none
  remote_tokens (e ∷ rest) prompt = elim (first_model (e ∷ rest)) [
    | none ↦ none
    | some m ↦ tokenize e.url m prompt
  ]

  unfoldable pub encode_or_remote : Tokenizer → List EndpointInfo → Value → Option (List ℕ)
  unfolding remote_tokens
  encode_or_remote t endpoints prompt = elim (encode t prompt) [
    | none ↦ remote_tokens endpoints prompt
    | some token_ids ↦ some token_ids
  ]

  -- the tokenizer afterwards, and the tokens
  unfoldable pub token_ids_of :
      Option Tokenizer → List EndpointInfo → Value → Option Tokenizer × Option (List ℕ)
  unfolding encode_or_remote remote_tokens
  token_ids_of (some t) endpoints prompt = (some t, encode_or_remote t endpoints prompt)
  token_ids_of none endpoints prompt = elim (first_model endpoints) [
    | none ↦ (none, remote_tokens endpoints prompt)
    | some m ↦ elim (from_pretrained m) [
      | none ↦ (none, remote_tokens endpoints prompt)
      | some t ↦ (some t, encode_or_remote t endpoints prompt)
    ]
  ]

  -- the loop over the endpoints: the mapping, and whether it came to its end
  unfoldable pub learn : List EndpointInfo → Dict String String → Dict String String × Bool
  unfolding query_ip
  learn [] known = (known, true)
  learn (e ∷ endpoints) known = elim (query_ip e.url) [
    | none ↦ (known, false)
    | some ip ↦ elim (query_instance ip) [
      | none ↦ (known, false)
      | some instance_id ↦ learn endpoints (put instance_id e.url known)
    ]
  ]

  -- the choice without a prefix that is long enough
  unfoldable pub fall_back :
      KvawareRouter
      → List EndpointInfo
      → Dict String (RequestStats fl)
      → (String → Option String)
      → Fields
      → KvawareRouter × Outcome
  fall_back r endpoints request_stats headers request_json =
      let session_id = extract_session_id r.session_key headers request_json in
      let ring = update_hash_ring h (urls endpoints) r.hash_ring in
      (
        record r { hash_ring = ring },
        routed (elim session_id [
          | none ↦ qps_routing fl endpoints request_stats
          | some key ↦ get_node ring key
        ]),
      )

  -- self.instance_id_to_ip[...], with a KeyError
  unfoldable pub known_url : Dict String String → String → Outcome
  known_url known instance_id = elim (get instance_id known) [
    | none ↦ raised
    | some url ↦ routed (some url)
  ]

  -- the choice of the instance that was found
  unfoldable pub follow : KvawareRouter → List EndpointInfo → String → KvawareRouter × Outcome
  unfolding learn known_url
  follow r endpoints instance_id = elim (get instance_id r.instance_id_to_ip) [
    | some url ↦ (r, routed (some url))
    | none ↦
        let (known, finished) = learn endpoints r.instance_id_to_ip in
        (
          record r { instance_id_to_ip = known },
          (if finished then known_url known instance_id else raised),
        )
  ]

  unfoldable pub choose :
      KvawareRouter
      → List EndpointInfo
      → Dict String (RequestStats fl)
      → (String → Option String)
      → Fields
      → List ℕ
      → Layout
      → KvawareRouter × Outcome
  unfolding fall_back follow too_short
  choose r endpoints request_stats headers request_json token_ids [] =
      fall_back r endpoints request_stats headers request_json
  choose r endpoints request_stats headers request_json token_ids ((instance_id, match) ∷ others) =
      elim r.threshold [
        | none ↦ (r, raised)
        | some threshold ↦
            if too_short match.1 token_ids threshold
            then fall_back r endpoints request_stats headers request_json
            else follow r endpoints instance_id
      ]

  unfoldable pub route_request :
      KvawareRouter
      → List EndpointInfo
      → Dict String (RequestStats fl)
      → (String → Option String)
      → Fields
      → KvawareRouter × Outcome
  unfolding token_ids_of choose
  route_request r endpoints request_stats headers request_json =
      let prompt = find_or "prompt" (Value.str "") request_json in
      let (tokenizer, tokens) = token_ids_of r.tokenizer endpoints prompt in
      let r' = record r { tokenizer = tokenizer } in
      elim tokens [
        | none ↦ (r', raised)
        | some token_ids ↦ elim (lookup token_ids) [
          | none ↦ (r', raised)
          | some layout ↦ choose r' endpoints request_stats headers request_json token_ids layout
        ]
      ]
