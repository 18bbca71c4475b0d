-- ===== src/HashTrie/History.antt =====
-- The trie against the history of the insertions that made it: what `longest_prefix_match` answers,
-- told without the trie.
use vllm_production_stack_cu.Base.{
  ℕ, ◌<◌, String, ◌≡◌, refl, Bool, false, ◌&&◌, ◌||◌, List, [], ◌∷◌, map, arith, ◌==◌, string_eq,
  eqb,
}
use vllm_production_stack_cu.Base.Dict.{mem}
use vllm_production_stack_cu.HashTrie.{HashTrie, insert}
use vllm_production_stack_cu.HashTrie.Chunks.{chunks, chunk_and_hash}
use vllm_production_stack_cu.HashTrie.Trie.{is_prefix, endpoints_at, mem-endpoints_at-descend}

-- requests with the endpoints that they were sent to, the oldest first
abbrev pub History : Type 0
History = List (List ℕ × String)

module _ (xxh64 : List ℕ → ℕ) (size : ℕ) where
  unfoldable pub hashes : List ℕ → List ℕ
  unfolding chunks
  hashes request = map xxh64 (chunks size request)

  unfoldable pub insert_all : HashTrie → History → HashTrie
  insert_all t [] = t
  insert_all t ((request, e) ∷ history) = insert_all (insert xxh64 t request e).0 history

  -- A request whose hashes begin with `path` was sent to the endpoint.
  unfoldable pub sent : String → List ℕ → History → Bool
  sent x path [] = false
  sent x path ((request, e) ∷ history) =
      (is_prefix path (hashes request) && (e == x)) || sent x path history

  module _ (pos : 0 < size) where
    insert_lem :
        (t : HashTrie) (request : List ℕ) (e x : String) (path : List ℕ)
        → t.chunk_size ≡ size
        → (mem x (endpoints_at path (insert xxh64 t request e).0.root)
            ≡ ((is_prefix path (hashes request) && (e == x)) || mem x (endpoints_at path t.root)))
          × ((insert xxh64 t request e).0.chunk_size ≡ size)
    unfolding insert chunk_and_hash hashes
    insert_lem t request e x path same =
        let p : eqb t.chunk_size 0 ≡ false = ground arith in
        rw (p, insert, chunk_and_hash, same)
          (mem-endpoints_at-descend path (hashes request) e x t.root, refl)

    pub mem-endpoints_at-insert_all :
        (t : HashTrie) (history : History) (x : String) (path : List ℕ)
        → t.chunk_size ≡ size
        → (mem x (endpoints_at path (insert_all t history).root)
            ≡ (sent x path history || mem x (endpoints_at path t.root)))
          × ((insert_all t history).chunk_size ≡ size)
    unfolding insert_all sent
    mem-endpoints_at-insert_all t [] x path same = (refl, same)
    mem-endpoints_at-insert_all t ((request, e) ∷ history) x path same =
        let (one, kept) = insert_lem t request e x path same in
        let (rest, kept') =
          mem-endpoints_at-insert_all (insert xxh64 t request e).0 history x path kept in
        (ground arith, kept')
