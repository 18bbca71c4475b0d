-- ===== src/Cache/Tests.antt =====
-- A chat that is asked again.
use vllm_production_stack_cu.Base.{
  ℕ, String, ◌≡◌, refl, true, Option, none, some, [], ◌∷◌, string_eq,
}
use vllm_production_stack_cu.Base.Json.{Value, Fields, nil, item, end, field, find}
use vllm_production_stack_cu.Cache.{Entry, new_cache, search, store}
use vllm_production_stack_cu.Cache.Chat.{
  Exchange, cached, check_semantic_cache, store_in_semantic_cache, response_of,
}
use vllm_production_stack_cu.Cache.Chat.Exchanges.{exchanges}
use vllm_production_stack_cu.Cache.Chat.Hits.{new_chats}
use vllm_production_stack_cu.Cache.Chat.Served.{IsServed, check_semantic_cache-IsServed}
use vllm_production_stack_cu.Cache.Sample.{list_index, list_index-IsFlat, best}

abbrev message : String → Value
message content = Value.obj (field "content" (Value.str content) end)

abbrev messages : String → Value
messages content = Value.arr (item (message content) nil)

abbrev body : Fields
body = field "model" (Value.str "m") (field "messages" (messages "hi") end)

abbrev chunk : Fields
chunk =
    field "choices" (Value.arr (item (Value.obj (field "message" (message "hello") end)) nil))
      (field "usage" (Value.num 4) end)

abbrev chat : Exchange
chat = record {
  endpoint = "/v1/chat/completions";
  method = "POST";
  body = some (Value.obj body);
  chunk = some (Value.obj chunk);
}

abbrev entry : Entry
entry = record {
  request_messages = messages "hi";
  response_messages = item (message "hello") nil;
  model = Value.str "m";
  usage = Value.num 4;
}

abbrev score_of : Value → Option ℕ
score_of (Value.num n) = some n
score_of _ = none

served :
    (check_semantic_cache list_index score_of Value.num true "id" 7
      (exchanges list_index (new_chats list_index 5) (chat ∷ []))
      (some (Value.obj body))).1
    ≡ cached (response_of list_index score_of Value.num "id" 7 (Value.str "m") entry 9)
unfolding check_semantic_cache exchanges new_chats store_in_semantic_cache search store best
    new_cache find
served = refl

check_semantic_cache-IsServed_example :
    IsServed list_index score_of Value.num list_index-IsFlat
      (chat ∷ [])
      5
      body
      (response_of list_index score_of Value.num "id" 7 (Value.str "m") entry 9)
check_semantic_cache-IsServed_example =
    check_semantic_cache-IsServed list_index score_of Value.num list_index-IsFlat (chat ∷ []) 5 "id"
      7 body (response_of list_index score_of Value.num "id" 7 (Value.str "m") entry 9) served
