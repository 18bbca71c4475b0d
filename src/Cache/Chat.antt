-- ===== src/Cache/Chat.antt =====
-- `store_in_semantic_cache` and `check_semantic_cache` of
-- src/vllm_router/experimental/semantic_cache_integration.py: what a chat puts into the cache, and
-- when a request is answered from it. The latency metric is left out.
pub mod Messages
pub mod Exchanges
pub mod Hits
pub mod Served
use vllm_production_stack_cu.Base.{
  ℕ, suc, ◌+◌, String, Bool, true, false, ◌&&◌, ◌||◌, not, Option, none, some, List, [], ◌∷◌, ◌==◌,
  string_eq, if◌then◌else◌,
}
use vllm_production_stack_cu.Cache.Chat.Messages.{loggable, messages_of_choices}
use vllm_production_stack_cu.Base.Json.{
  Value, Items, Fields, nil, item, end, field, find, find_or, truthy,
}
use vllm_production_stack_cu.Cache.{
  Outside, Entry, SemanticCache, Search, hit, miss, raised, search, store,
}

abbrev pub no_usage : Value
no_usage = Value.obj (
    field "prompt_tokens" (Value.num 0)
      (field "completion_tokens" (Value.num 0) (field "total_tokens" (Value.num 0) end)))

abbrev pub model_in : Fields → Value
model_in body = find_or "model" (Value.str "") body

abbrev pub messages_in_body : Fields → Value
messages_in_body body = find_or "messages" (Value.arr nil) body

-- a flag of the request
abbrev pub flag : String → Fields → Bool
flag k body = truthy (find_or k (Value.bool false) body)

-- One answered request: its endpoint and method, its body and the chunk, each with what it parses to,
-- `none` if it is no JSON.
pub record Exchange : Type 0 where
  pub endpoint : String
  pub method : String
  pub body : Option Value
  pub chunk : Option Value

-- the entry of two objects
unfoldable pub entry_in : Fields → Fields → Option Entry
unfolding messages_of_choices loggable
entry_in request_body response_body = elim (messages_of_choices (find "choices" response_body)) [
  | none ↦ none
  | some response_messages ↦
      if loggable (messages_in_body request_body) && loggable (Value.arr response_messages)
      then some (record {
        request_messages = messages_in_body request_body;
        response_messages = response_messages;
        model = model_in request_body;
        usage = find_or "usage" no_usage response_body;
      })
      else none
]

unfoldable pub entry_of_bodies : Option Value → Option Value → Option Entry
unfolding entry_in
entry_of_bodies (some (Value.obj request_body)) (some (Value.obj response_body)) =
    if flag "skip_cache" request_body || flag "stream" request_body
    then none
    else entry_in request_body response_body
entry_of_bodies _ _ = none

-- what is handed to the cache, `none` where an exception is logged or the exchange is passed over
unfoldable pub entry_of : Exchange → Option Entry
unfolding entry_of_bodies
entry_of x =
    if (x.endpoint == "/v1/chat/completions") && (x.method == "POST")
    then entry_of_bodies x.body x.chunk
    else none

-- how a check ends: the request goes on, it is answered, or the check raises
pub data Answer : Type 0 where
  forward : Answer
  cached : Fields → Answer
  check_raised : Answer

module _ (o : Outside) where
  -- the cache, `none` where it was not initialised, and the gauges
  pub record Chats : Type 0 where
    pub cache : Option (SemanticCache o)
    pub size : ℕ
    pub hits : ℕ
    pub misses : ℕ
    -- hits / total, as two numbers
    pub hit_ratio : Option (ℕ × ℕ)

  unfoldable pub stored_in : Chats → SemanticCache o × Bool → Chats
  stored_in s (c, success) =
      if success
      then record s { cache = some c; size = o.ntotal c.db.index }
      else record s { cache = some c }

  unfoldable pub store_in_semantic_cache : Bool → Chats → Exchange → Chats
  unfolding entry_of stored_in
  store_in_semantic_cache false s x = s
  store_in_semantic_cache true s x = elim s.cache [
    | none ↦ s
    | some c ↦ elim (entry_of x) [ none ↦ s | some entry ↦ stored_in s (store o c entry) ]
  ]

  -- the choices of an answer, numbered
  unfoldable pub choices_from : ℕ → Items → Items
  choices_from i nil = nil
  choices_from i (item m ms) =
      item
        (Value.obj (
          field "index" (Value.num i)
            (field "message" m (field "finish_reason" (Value.str "stop") end))))
        (choices_from (suc i) ms)

  -- `score_of` is a JSON value as a number to compare with, `none` where that is a TypeError;
  -- `score_value` writes a score; the identifier and the time of the answer are arguments.
  module _ (score_of : Value → Option o.Score) (score_value : o.Score → Value) where
    -- body.get("cache_similarity_threshold", None)
    unfoldable pub threshold_in : Fields → Option (Option o.Score)
    threshold_in body = elim (find "cache_similarity_threshold" body) [
      | none ↦ none
      | some Value.null ↦ none
      | some v ↦ some (score_of v)
    ]

    unfoldable pub response_of : String → ℕ → Value → Entry → o.Score → Fields
    unfolding choices_from
    response_of id created model entry score = field "id" (Value.str id) (
        field "object" (Value.str "chat.completion") (
          field "created" (Value.num created) (
            field "model" model (
              field "choices" (Value.arr (choices_from 0 entry.response_messages)) (
                field "usage" entry.usage (
                  field "cached" (Value.bool true)
                    (field "similarity_score" (score_value score) end)))))))

    unfoldable pub count_hit : Chats → Chats
    count_hit s = record s {
      hits = s.hits + 1;
      hit_ratio = some (s.hits + 1, s.hits + 1 + s.misses);
    }

    unfoldable pub count_miss : Chats → Chats
    count_miss s = record s {
      misses = s.misses + 1;
      hit_ratio = some (s.hits, s.hits + (s.misses + 1));
    }

    unfoldable pub conclude : String → ℕ → Value → Chats → Search o → Chats × Answer
    unfolding response_of count_hit count_miss loggable
    conclude id created model s (hit entry score) = (
      count_hit s,
      (if loggable (Value.arr entry.response_messages)
          then cached (response_of id created model entry score)
          else check_raised),
    )
    conclude id created model s miss = (count_miss s, forward)
    conclude id created model s raised = (s, check_raised)

    unfoldable pub look_up : String → ℕ → Chats → SemanticCache o → Fields → Chats × Answer
    unfolding conclude threshold_in loggable
    look_up id created s c body =
        if flag "skip_cache" body || not (truthy (messages_in_body body))
        then (s, forward)
        else if loggable (messages_in_body body)
        then conclude id created (model_in body) s
            (search o c (messages_in_body body) (model_in body) (threshold_in body))
        else (s, check_raised)

    unfoldable pub check_semantic_cache : Bool → String → ℕ → Chats → Option Value → Chats × Answer
    unfolding look_up
    check_semantic_cache false id created s body = (s, forward)
    check_semantic_cache true id created s none = (s, check_raised)
    check_semantic_cache true id created s (some (Value.obj body)) = elim s.cache [
      | none ↦ (s, forward)
      | some c ↦ look_up id created s c body
    ]
    check_semantic_cache true id created s (some v) = elim s.cache [
      | none ↦ (s, forward)
      | some c ↦ (s, check_raised)
    ]
