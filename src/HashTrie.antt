-- ===== src/HashTrie.antt =====
-- src/vllm_router/prefix/hashtrie.py: the trie of hashed chunks that remembers which endpoint saw
-- which request prefix. A request is its list of code points; `xxhash` is a parameter.
pub mod Chunks
pub mod Trie
pub mod Match
pub mod History
pub mod Longest
pub mod Tests
use vllm_production_stack_cu.Base.{
  ℕ, ◌+◌, String, Bool, true, false, Option, none, some, List, [], ◌∷◌, is_empty, filter, string_eq,
}
use vllm_production_stack_cu.Base.Dict.{mem}
use Chunks.{chunk_and_hash}
use Trie.{Node, empty_node, add_endpoint, descend, endpoints, child}

pub record HashTrie : Type 0 where
  pub root : Node
  pub chunk_size : ℕ

unfoldable pub new_trie : ℕ → HashTrie
new_trie chunk_size = record { root = empty_node; chunk_size = chunk_size }

-- endpoints.intersection(selected)
unfoldable pub intersection : List String → List String → List String
intersection eps selected = filter (λ e. mem e selected) eps

-- the loop of `longest_prefix_match` over the hashes that are left
unfoldable pub match_loop : ℕ → List ℕ → Node → ℕ → List String → ℕ × List String
match_loop size [] n match_length selected = (match_length, selected)
match_loop size (h ∷ hs) n match_length selected = elim (child h n) [
  | none ↦ (match_length, selected)
  | some next ↦
      let common = intersection (endpoints next) selected in
      elim (is_empty common) [
        | true ↦ (match_length, selected)
        | false ↦ match_loop size hs next (match_length + size) common
      ]
]

module _ (xxh64 : List ℕ → ℕ) where
  -- The new trie, and whether the call returned: with a chunk size of 0 `range` raises after the
  -- root has been written.
  unfoldable pub insert : HashTrie → List ℕ → String → HashTrie × Bool
  insert t request endpoint =
      let root = add_endpoint endpoint t.root in
      elim (chunk_and_hash xxh64 t.chunk_size request) [
        | none ↦ (record t { root = root }, false)
        | some hashes ↦ (record t { root = descend hashes endpoint root }, true)
      ]

  -- `none` is the ValueError of `range`.
  unfoldable pub longest_prefix_match : HashTrie → List ℕ → List String → Option (ℕ × List String)
  longest_prefix_match t request available = elim (chunk_and_hash xxh64 t.chunk_size request) [
    | none ↦ none
    | some hashes ↦ some (match_loop t.chunk_size hashes t.root 0 available)
  ]
