-- ===== src/Cache.antt =====
-- The semantic cache of src/vllm_router/experimental/semantic_cache: `FAISSAdapter` of
-- db_adapters/faiss_adapter.py and `SemanticCache` of semantic_cache.py. Saving the index and the
-- metadata to files is left out.
pub mod History
pub mod Lookup
pub mod Chat
pub mod Sample
mod Tests
use vllm_production_stack_cu.Base.{
  ℕ, String, ◌≡◌, Bool, true, false, Option, none, some, List, [], ◌∷◌, ◌++◌, length, get_elem?,
  All, eqb, string_eq, if◌then◌else◌,
}
use vllm_production_stack_cu.Base.Dict.{Dict, get, put, remove}
use vllm_production_stack_cu.Base.Json.{Value, Items}

-- What is called outside: the embedding of messages by the sentence transformer, `none` for an
-- exception; the index of FAISS, whose search for one neighbour is `none` for the index -1; the order
-- of scores; and Python's `==` on JSON values.
pub record Outside : Type 1 where
  pub Embedding : Type 0
  pub Index : Type 0
  pub Score : Type 0
  pub get_embedding : Value → Option Embedding
  pub empty_index : Index
  pub ntotal : Index → ℕ
  pub add_vector : Embedding → Index → Index
  pub nearest : Index → Embedding → Option (ℕ × Score)
  pub at_least : Score → Score → Bool
  pub same_value : Value → Value → Bool

-- `IndexFlatIP` keeps its vectors in order and finds one with the greatest inner product.
pub record IsFlat (o : Outside) : Type 0 where
  pub inner : o.Embedding → o.Embedding → o.Score
  pub vectors : o.Index → List o.Embedding
  pub vectors-empty : vectors o.empty_index ≡ []
  pub vectors-add :
      (e : o.Embedding) (x : o.Index) → vectors (o.add_vector e x) ≡ vectors x ++ e ∷ []
  pub ntotal-length : (x : o.Index) → o.ntotal x ≡ length (vectors x)
  pub found :
      (x : o.Index) (q : o.Embedding) (i : ℕ) (s : o.Score)
      → o.nearest x q ≡ some (i, s)
      → (e : o.Embedding) × (get_elem? (vectors x) i ≡ some e)
        × (s ≡ inner q e)
        × All (λ e'. o.at_least s (inner q e') ≡ true) (vectors x)
  pub none_found : (x : o.Index) (q : o.Embedding) → o.nearest x q ≡ none → vectors x ≡ []

-- what is kept with a vector
pub record Entry : Type 0 where
  pub request_messages : Value
  pub response_messages : Items
  pub model : Value
  pub usage : Value

module _ (o : Outside) where
  open o use {
    Embedding, Index, Score, get_embedding, ntotal, add_vector, nearest, at_least, same_value,
  }

  pub record FaissAdapter : Type 0 where
    pub index : Index
    pub metadata : List Entry

  -- how a search ends
  pub data Search : Type 0 where
    hit : Entry → Score → Search
    miss : Search
    raised : Search

  -- No files, or files that cannot be read, are `none`.
  unfoldable pub new_adapter : Option (Index × List Entry) → FaissAdapter
  new_adapter none = record { index = o.empty_index; metadata = [] }
  new_adapter (some (index, metadata)) = record { index = index; metadata = metadata }

  -- the entry beside the vector that was found; a place without an entry is an IndexError
  unfoldable pub found_entry : Option Entry → Value → Score → Search
  found_entry none model score = raised
  found_entry (some entry) model score =
      if same_value entry.model model then hit entry score else miss

  -- A threshold that is no number is `none`, and comparing with it a TypeError.
  unfoldable pub search_db : FaissAdapter → Embedding → Value → Option Score → Search
  unfolding found_entry
  search_db db embedding model similarity_threshold =
      if eqb (ntotal db.index) 0 then miss else (elim (nearest db.index embedding) [
        | none ↦ miss
        | some (i, score) ↦ elim similarity_threshold [
          | none ↦ raised
          | some t ↦
              if at_least score t then found_entry (get_elem? db.metadata i) model score else miss
        ]
      ])

  unfoldable pub store_db : FaissAdapter → Embedding → Entry → FaissAdapter
  store_db db embedding entry = record {
    index = add_vector embedding db.index;
    metadata = db.metadata ++ entry ∷ [];
  }

  pub record PendingSearch : Type 0 where
    pub embedding : Embedding
    pub model : Value
    pub similarity_threshold : Option Score

  pub record PendingStore : Type 0 where
    pub embedding : Embedding
    pub request_messages : Value
    pub model : Value

  pub record SemanticCache : Type 0 where
    pub db : FaissAdapter
    pub default_similarity_threshold : Score
    pub pending_searches : Dict String PendingSearch
    pub pending_stores : Dict String PendingStore

  unfoldable pub new_cache : Option (Index × List Entry) → Score → SemanticCache
  unfolding new_adapter
  new_cache files default_similarity_threshold = record {
    db = new_adapter files;
    default_similarity_threshold = default_similarity_threshold;
    pending_searches = [];
    pending_stores = [];
  }

  -- `none` is Python's `None`; a threshold that is no number is `some none`
  unfoldable pub threshold_or : SemanticCache → Option (Option Score) → Option Score
  threshold_or c none = some c.default_similarity_threshold
  threshold_or c (some t) = t

  unfoldable pub search : SemanticCache → Value → Value → Option (Option Score) → Search
  unfolding search_db threshold_or
  search c messages model similarity_threshold = elim (get_embedding messages) [
    | none ↦ raised
    | some embedding ↦ search_db c.db embedding model (threshold_or c similarity_threshold)
  ]

  unfoldable pub store : SemanticCache → Entry → SemanticCache × Bool
  unfolding store_db
  store c entry = elim (get_embedding entry.request_messages) [
    | none ↦ (c, false)
    | some embedding ↦ (record c { db = store_db c.db embedding entry }, true)
  ]

  -- The new identifier is an argument; `none` is an exception of the embedding.
  unfoldable pub initiate_search :
      SemanticCache → String → Value → Value → Option (Option Score) → Option SemanticCache
  unfolding threshold_or
  initiate_search c request_id messages model similarity_threshold = elim (get_embedding messages) [
    | none ↦ none
    | some embedding ↦
        let pending : PendingSearch = record {
          embedding = embedding;
          model = model;
          similarity_threshold = threshold_or c similarity_threshold;
        } in
        some (record c { pending_searches = put request_id pending c.pending_searches })
  ]

  unfoldable pub complete_search : SemanticCache → String → SemanticCache × Search
  unfolding search_db
  complete_search c request_id = elim (get request_id c.pending_searches) [
    | none ↦ (c, miss)
    | some pending ↦ (
      record c { pending_searches = remove request_id c.pending_searches },
      search_db c.db pending.embedding pending.model pending.similarity_threshold,
    )
  ]

  unfoldable pub initiate_store : SemanticCache → String → Value → Value → Option SemanticCache
  initiate_store c request_id request_messages model = elim (get_embedding request_messages) [
    | none ↦ none
    | some embedding ↦
        let pending : PendingStore = record {
          embedding = embedding;
          request_messages = request_messages;
          model = model;
        } in
        some (record c { pending_stores = put request_id pending c.pending_stores })
  ]

  -- the entry of a store that has its answer
  abbrev pub completed : PendingStore → Items → Value → Entry
  completed pending response_messages usage = record {
    request_messages = pending.request_messages;
    response_messages = response_messages;
    model = pending.model;
    usage = usage;
  }

  unfoldable pub complete_store : SemanticCache → String → Items → Value → SemanticCache × Bool
  unfolding store_db
  complete_store c request_id response_messages usage = elim (get request_id c.pending_stores) [
    | none ↦ (c, false)
    | some pending ↦ (
      record c {
        db = store_db c.db pending.embedding (completed pending response_messages usage);
        pending_stores = remove request_id c.pending_stores;
      },
      true,
    )
  ]
