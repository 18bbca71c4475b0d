-- ===== src/HashTrie/Longest.antt =====
-- `longest_prefix_match` against the history of the insertions, told without the trie.
use native.Mathlib.Decide.{ℕ_discrete}
use vllm_production_stack_cu.Base.{
  ℕ, zero, suc, ◌*◌, ◌≤◌, ◌<◌, String, ◌≡◌, refl, sym, ◌∙◌, true, false, ◌&&◌, ◌||◌, some, List, [],
  ◌∷◌, ◌++◌, ◌≢◌, ◌⊎◌, inl, inr, arith, length, take, string_eq, Option-cases, eqb,
}
use vllm_production_stack_cu.Base.Dict.{mem}
use vllm_production_stack_cu.HashTrie.{HashTrie, new_trie, longest_prefix_match, match_loop}
use vllm_production_stack_cu.HashTrie.Chunks.{chunk_and_hash}
use vllm_production_stack_cu.HashTrie.Trie.{
  Node, child, is_prefix, endpoints_at, endpoints_at-empty_node,
}
use vllm_production_stack_cu.HashTrie.Match.{held, Walk, match_loop-Walk}
use vllm_production_stack_cu.HashTrie.History.{
  History, hashes, insert_all, sent, mem-endpoints_at-insert_all,
}

-- An endpoint that stands at the end of a path stands at every node above.
abbrev IsClosed : String → Node → Type 0
IsClosed x n =
    (path q : List ℕ)
    → mem x (endpoints_at (path ++ q) n) ≡ true
    → mem x (endpoints_at path n) ≡ true

child-IsClosed :
    (x : String) (h : ℕ) (n m : Node) → child h n ≡ some m → IsClosed x n → IsClosed x m
unfolding endpoints_at
child-IsClosed x h n m e closed path q t = ground (arith, closed (h ∷ path) q)

held-mem :
    (x : String) (h : ℕ) (p : List ℕ) (n : Node)
    → IsClosed x n
    → held x (h ∷ p) n ≡ mem x (endpoints_at (h ∷ p) n)
unfolding held endpoints_at mem
held-mem x h [] n closed = ground arith
held-mem x h (j ∷ p) n closed = elim (Option-cases (child h n)) [
  | inl e ↦ ground arith
  | inr (m, e) ↦
      ground (arith, held-mem x j p m (child-IsClosed x h n m e closed), closed (h ∷ []) (j ∷ p))
]

is_prefix-append : (path q hs : List ℕ) → is_prefix (path ++ q) hs ≡ true → is_prefix path hs ≡ true
unfolding is_prefix
is_prefix-append [] q hs h = refl
is_prefix-append (p ∷ path) q [] h = h
is_prefix-append (p ∷ path) q (j ∷ hs) h = ground (arith, is_prefix-append path q hs)

-- `matched` is what `longest_prefix_match` answers for `request`, after the requests of the
-- history were inserted: `steps` whole chunks are the most that the request shares with a request
-- that was sent to one of the available endpoints, and the selected ones are all such endpoints.
pub record IsLongest (xxh64 : List ℕ → ℕ) (size : ℕ) (history : History) (request : List ℕ)
    (available : List String) (matched : ℕ × List String) : Type 0 where
  pub steps : ℕ
  pub in_range : steps ≤ length (hashes xxh64 size request)
  pub match_length : matched.0 ≡ steps * size
  pub selected :
      (x : String)
      → mem x matched.1 ≡ (
          mem x available
          && (eqb steps 0 || sent xxh64 size x (take steps (hashes xxh64 size request)) history))
  pub maximal :
      (steps ≡ length (hashes xxh64 size request))
      ⊎ ((x : String)
          → (mem x available
              && sent xxh64 size x (take (suc steps) (hashes xxh64 size request)) history)
            ≡ false)

pub match_of_pos :
    (xxh64 : List ℕ → ℕ) (size : ℕ) (t : HashTrie) (request : List ℕ) (available : List String)
    → 0 < size
    → t.chunk_size ≡ size
    → longest_prefix_match xxh64 t request available
      ≡ some (match_loop size (hashes xxh64 size request) t.root 0 available)
unfolding longest_prefix_match chunk_and_hash hashes
match_of_pos xxh64 size t request available pos same =
    let p : eqb t.chunk_size 0 ≡ false = ground arith in
    rw (p, longest_prefix_match, chunk_and_hash, same) refl

module _ (xxh64 : List ℕ → ℕ) (size : ℕ) (pos : 0 < size) (history : History) where
  abbrev pub trie : HashTrie
  trie = insert_all xxh64 size (new_trie size) history

  sent-append :
      (x : String) (path q : List ℕ) (past : History)
      → sent xxh64 size x (path ++ q) past ≡ true
      → sent xxh64 size x path past ≡ true
  unfolding sent
  sent-append x path q [] h = h
  sent-append x path q ((request, e) ∷ past) h =
      ground (arith, is_prefix-append path q (hashes xxh64 size request), sent-append x path q past)

  mem-trie :
      (x : String) (path : List ℕ)
      → mem x (endpoints_at path trie.root) ≡ sent xxh64 size x path history
  unfolding new_trie mem
  mem-trie x path = ground (
    arith,
    (mem-endpoints_at-insert_all xxh64 size pos (new_trie size) history x path refl).0,
    endpoints_at-empty_node path,
  )

  pub chunk_size-trie : trie.chunk_size ≡ size
  unfolding new_trie
  chunk_size-trie =
      (mem-endpoints_at-insert_all xxh64 size pos (new_trie size) history "" [] refl).1

  trie-IsClosed : (x : String) → IsClosed x trie.root
  trie-IsClosed x path q h =
      mem-trie x path ∙ sent-append x path q history (sym (mem-trie x (path ++ q)) ∙ h)

  held-trie :
      (x : String) (h : ℕ) (p : List ℕ)
      → held x (h ∷ p) trie.root ≡ sent xxh64 size x (h ∷ p) history
  held-trie x h p = held-mem x h p trie.root (trie-IsClosed x) ∙ mem-trie x (h ∷ p)

  held-take :
      (x : String) (k : ℕ) (hs : List ℕ)
      → k ≤ length hs
      → held x (take k hs) trie.root ≡ (eqb k 0 || sent xxh64 size x (take k hs) history)
  unfolding held
  held-take x zero hs le = refl
  held-take x (suc k) [] le = absurd (omega arith)
  held-take x (suc k) (h ∷ hs) le = ground (arith, held-trie x h (take k hs))

  held-take-suc :
      (x : String) (k : ℕ) (hs : List ℕ)
      → k ≢ length hs
      → k ≤ length hs
      → held x (take (suc k) hs) trie.root ≡ sent xxh64 size x (take (suc k) hs) history
  held-take-suc x k [] ne le = absurd (omega arith)
  held-take-suc x k (h ∷ hs) ne le = held-trie x h (take k hs)

  further :
      (x : String) (request : List ℕ) {available : List String} {matched : ℕ × List String}
      (w : Walk size (hashes xxh64 size request) trie.root (0, available) matched)
      → w.steps ≢ length (hashes xxh64 size request)
      → (mem x available
          && sent xxh64 size x (take (suc w.steps) (hashes xxh64 size request)) history)
        ≡ false
  further x request w more = elim w.maximal [
    | inl end ↦ absurd (more end)
    | inr f ↦ rw (← held-take-suc x w.steps (hashes xxh64 size request) more w.in_range) (f x)
  ]

  -- With a chunk size of at least 1, on a trie made by any sequence of insertions into a new trie,
  -- `longest_prefix_match` returns, and its answer is the longest match of whole chunks: the length
  -- is that of a number of leading chunks. If that is no chunk, the endpoints are all the available
  -- ones; else they are the available ones that were sent a request whose leading chunks have the
  -- same hashes as these. If chunks are left, no available endpoint was sent one with the hash of
  -- the next chunk as well. The hash may be any function: nothing is said of requests whose chunks
  -- collide.
  pub longest_prefix_match-IsLongest :
      (request : List ℕ) (available : List String)
      → (matched : ℕ × List String) × (longest_prefix_match xxh64 trie request available
          ≡ some matched)
        × IsLongest xxh64 size history request available matched
  longest_prefix_match-IsLongest request available =
      let hs = hashes xxh64 size request in
      let w = match_loop-Walk size hs trie.root 0 available in
      (
        match_loop size hs trie.root 0 available,
        match_of_pos xxh64 size trie request available pos chunk_size-trie,
        record {
          steps = w.steps;
          in_range = w.in_range;
          match_length = omega (arith, w.walked);
          selected = λ x. ground (arith, w.kept x, held-take x w.steps hs w.in_range);
          maximal = elim (ℕ_discrete w.steps (length hs)) [
            | yes end ↦ inl end
            | no more ↦ inr (λ x. further x request w more)
          ];
        },
      )
