-- ===== src/Cache/History.antt =====
-- The calls on a semantic cache in their order, and what they have stored.
use vllm_production_stack_cu.Base.{String, Option, none, some, List, [], ◌∷◌, ◌++◌, string_eq}
use vllm_production_stack_cu.Base.Dict.{get}
use vllm_production_stack_cu.Base.Json.{Value, Items}
use vllm_production_stack_cu.Cache.{
  Outside, Entry, SemanticCache, store, initiate_search, complete_search, initiate_store, completed,
  complete_store,
}

-- a call, with the identifiers that are made or given
pub data Call (o : Outside) : Type 0 where
  store_chat : Entry → Call o
  start_search : String → Value → Value → Option (Option o.Score) → Call o
  end_search : String → Call o
  start_store : String → Value → Value → Call o
  end_store : String → Items → Value → Call o

module _ (o : Outside) where
  abbrev pub or_same : SemanticCache o → Option (SemanticCache o) → SemanticCache o
  or_same c none = c
  or_same c (some c') = c'

  unfoldable pub call : SemanticCache o → Call o → SemanticCache o
  call c (store_chat entry) = (store o c entry).0
  call c (start_search id messages model t) = or_same c (initiate_search o c id messages model t)
  call c (end_search id) = (complete_search o c id).0
  call c (start_store id messages model) = or_same c (initiate_store o c id messages model)
  call c (end_store id responses usage) = (complete_store o c id responses usage).0

  unfoldable pub calls : SemanticCache o → List (Call o) → SemanticCache o
  calls c [] = c
  calls c (x ∷ xs) = calls (call c x) xs

  -- The chat that a call completes: one that is stored at once, or one that was started under the
  -- same identifier and has not ended.
  unfoldable pub chat_of : SemanticCache o → Call o → List (o.Embedding × Entry)
  chat_of c (store_chat entry) = elim (o.get_embedding entry.request_messages) [
    | none ↦ []
    | some e ↦ (e, entry) ∷ []
  ]
  chat_of c (end_store id responses usage) = elim (get id c.pending_stores) [
    | none ↦ []
    | some pending ↦ (pending.embedding, completed o pending responses usage) ∷ []
  ]
  chat_of c _ = []

  unfoldable pub chats : SemanticCache o → List (Call o) → List (o.Embedding × Entry)
  chats c [] = []
  chats c (x ∷ xs) = chat_of c x ++ chats (call c x) xs
