-- ===== src/HashTrie/Trie.antt =====
-- `TrieNode` of src/vllm_router/prefix/hashtrie.py. The locks order the accesses of a node within
-- one event loop; a call of `insert` or of `longest_prefix_match` is taken as a whole.
use vllm_production_stack_cu.Base.{
  ℕ, String, ◌≡◌, refl, Bool, true, false, ◌&&◌, ◌||◌, Option, none, some, List, [], ◌∷◌, arith,
  eqb, if◌then◌else◌, ◌==◌, string_eq,
}
use vllm_production_stack_cu.Base.Dict.{mem, add, mem-add}

mutual
  pub data Node : Type 0 where
    node : List String → Children → Node

  pub data Children : Type 0 where
    nil : Children
    cons : ℕ → Node → Children → Children

abbrev pub empty_node : Node
empty_node = node [] nil

abbrev pub endpoints : Node → List String
endpoints (node eps children) = eps

-- node.endpoints.add(endpoint)
unfoldable pub add_endpoint : String → Node → Node
add_endpoint e (node eps children) = node (add e eps) children

-- children.get(chunk_hash)
unfoldable pub get_child : ℕ → Children → Option Node
get_child h nil = none
get_child h (cons k n rest) = if eqb k h then some n else get_child h rest

-- children[chunk_hash] = n
unfoldable pub put_child : ℕ → Node → Children → Children
put_child h n nil = cons h n nil
put_child h n (cons k m rest) = if eqb k h then cons k n rest else cons k m (put_child h n rest)

unfoldable pub child : ℕ → Node → Option Node
unfolding get_child
child h (node eps children) = get_child h children

abbrev pub or_new : Option Node → Node
or_new none = empty_node
or_new (some n) = n

-- The loop of `insert` below a node that holds the endpoint already: make the child if it is
-- missing, step to it, add the endpoint to it.
unfoldable pub descend : List ℕ → String → Node → Node
unfolding add_endpoint get_child put_child
descend [] e n = n
descend (h ∷ hs) e (node eps children) =
    node eps (put_child h (descend hs e (add_endpoint e (or_new (get_child h children)))) children)

-- The endpoints at the node that a path of hashes leads to, none if there is no such node.
unfoldable pub endpoints_at : List ℕ → Node → List String
unfolding child
endpoints_at [] n = endpoints n
endpoints_at (h ∷ path) n = elim (child h n) [ none ↦ [] | some m ↦ endpoints_at path m ]

unfoldable pub is_prefix : List ℕ → List ℕ → Bool
is_prefix [] hs = true
is_prefix (p ∷ ps) [] = false
is_prefix (p ∷ ps) (h ∷ hs) = eqb p h && is_prefix ps hs

get_child-put_child :
    (h j : ℕ) (n : Node) (c : Children)
    → get_child j (put_child h n c) ≡ (if eqb h j then some n else get_child j c)
unfolding get_child put_child
get_child-put_child h j n nil = refl
get_child-put_child h j n (cons k m rest) = ground (arith, get_child-put_child h j n rest)

pub endpoints_at-empty_node : (path : List ℕ) → endpoints_at path empty_node ≡ []
unfolding endpoints_at get_child
endpoints_at-empty_node [] = refl
endpoints_at-empty_node (h ∷ path) = refl

-- the path of a child that is made anew shows nothing
endpoints_at-or_new :
    (path : List ℕ) (o : Option Node)
    → endpoints_at path (or_new o) ≡ elim o [ none ↦ [] | some n ↦ endpoints_at path n ]
endpoints_at-or_new path none = endpoints_at-empty_node path
endpoints_at-or_new path (some n) = refl

-- What a path shows after an insertion: the endpoint is new exactly on the prefixes of the
-- inserted path.
pub mem-endpoints_at-descend :
    (path hs : List ℕ) (e x : String) (n : Node)
    → mem x (endpoints_at path (descend hs e (add_endpoint e n)))
      ≡ ((is_prefix path hs && (e == x)) || mem x (endpoints_at path n))
unfolding endpoints_at descend is_prefix add_endpoint
mem-endpoints_at-descend [] [] e x (node eps c) = mem-add e x eps
mem-endpoints_at-descend [] (h ∷ hs) e x (node eps c) = mem-add e x eps
mem-endpoints_at-descend (p ∷ ps) [] e x (node eps c) = refl
mem-endpoints_at-descend (p ∷ ps) (h ∷ hs) e x (node eps c) = ground (
  arith,
  get_child-put_child h p (descend hs e (add_endpoint e (or_new (get_child h c)))) c,
  mem-endpoints_at-descend ps hs e x (or_new (get_child h c)),
  endpoints_at-or_new ps (get_child h c),
)
