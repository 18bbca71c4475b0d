-- ===== src/HashTrie/Tests.antt =====
-- The trie at small inputs: a hash that adds up a chunk, and chunks of two characters.
use mathlib.Core.List.{flatten}
use vllm_production_stack_cu.Base.{
  ℕ, ◌+◌, ◌*◌, ◌≤◌, ◌<◌, String, ◌≡◌, refl, some, List, [], ◌∷◌, arith, length, All, string_eq,
}
use vllm_production_stack_cu.HashTrie.{
  new_trie, insert, longest_prefix_match, match_loop, intersection,
}
use vllm_production_stack_cu.HashTrie.Chunks.{chunks, chunk_and_hash, chunks_lem}
use vllm_production_stack_cu.HashTrie.Trie.{descend, child}
use vllm_production_stack_cu.HashTrie.History.{History, insert_all}
use vllm_production_stack_cu.HashTrie.Longest.{IsLongest, longest_prefix_match-IsLongest}
use vllm_production_stack_cu.Base.Dict.{mem, add}

-- a stand-in for xxhash
abbrev pub digest : List ℕ → ℕ
digest [] = 7
digest (c ∷ cs) = c + 10 * digest cs

abbrev pub past : History
past = (1 ∷ 2 ∷ 3 ∷ 4 ∷ [], "a") ∷ (1 ∷ 2 ∷ 5 ∷ [], "b") ∷ []

chunks_run : chunks 2 (1 ∷ 2 ∷ 3 ∷ 4 ∷ 5 ∷ []) ≡ (1 ∷ 2 ∷ []) ∷ (3 ∷ 4 ∷ []) ∷ (5 ∷ []) ∷ []
unfolding chunks
chunks_run = refl

match_run :
    longest_prefix_match digest
      (insert_all digest 2 (new_trie 2) past)
      (1 ∷ 2 ∷ 3 ∷ 4 ∷ 9 ∷ [])
      ("a" ∷ "b" ∷ [])
    ≡ some (4, "a" ∷ [])
unfolding longest_prefix_match insert_all insert new_trie match_loop intersection chunk_and_hash
    descend child mem add
match_run = refl

chunks_lem_example :
    (flatten (chunks 2 (1 ∷ 2 ∷ 3 ∷ [])) ≡ 1 ∷ 2 ∷ 3 ∷ [])
    × All (λ c. (0 < length c) × (length c ≤ 2)) (chunks 2 (1 ∷ 2 ∷ 3 ∷ []))
    × (3 ≤ length (chunks 2 (1 ∷ 2 ∷ 3 ∷ [])) * 2)
    × (length (chunks 2 (1 ∷ 2 ∷ 3 ∷ [])) * 2 < 3 + 2)
chunks_lem_example = chunks_lem 2 (omega arith) (1 ∷ 2 ∷ 3 ∷ [])

longest_prefix_match_example :
    (matched : ℕ × List String) × (longest_prefix_match digest
        (insert_all digest 2 (new_trie 2) past)
        (1 ∷ 2 ∷ 3 ∷ [])
        ("a" ∷ "b" ∷ [])
      ≡ some matched)
    × IsLongest digest 2 past (1 ∷ 2 ∷ 3 ∷ []) ("a" ∷ "b" ∷ []) matched
longest_prefix_match_example =
    longest_prefix_match-IsLongest digest 2 (omega arith) past (1 ∷ 2 ∷ 3 ∷ []) ("a" ∷ "b" ∷ [])
