-- ===== src/HashTrie/Match.antt =====
-- The loop of `longest_prefix_match` over any trie: how far it walks, and which endpoints it keeps.
use vllm_production_stack_cu.Base.{
  ℕ, suc, ◌+◌, ◌*◌, ◌≤◌, String, ◌≡◌, refl, ap, Bool, true, false, ◌&&◌, none, some, List, [], ◌∷◌,
  ◌⊎◌, inl, inr, arith, length, take, is_empty, string_eq, Bool-cases, Option-cases,
}
use vllm_production_stack_cu.Base.Dict.{mem}
use vllm_production_stack_cu.HashTrie.{intersection, match_loop}
use vllm_production_stack_cu.HashTrie.Trie.{Node, endpoints, child}

-- The endpoint stands at every node below `n` along the path.
unfoldable pub held : String → List ℕ → Node → Bool
held x [] n = true
held x (h ∷ path) n = elim (child h n) [
  | none ↦ false
  | some m ↦ mem x (endpoints m) && held x path m
]

-- A walk of `steps` chunks along `hs` from `n`, with the endpoints that it keeps.
pub record Walk (size : ℕ) (hs : List ℕ) (n : Node) (from : ℕ × List String) (to : ℕ × List String)
    : Type 0 where
  pub steps : ℕ
  pub in_range : steps ≤ length hs
  pub walked : to.0 ≡ from.0 + steps * size
  pub kept : (x : String) → mem x to.1 ≡ (mem x from.1 && held x (take steps hs) n)
  pub maximal :
      (steps ≡ length hs)
      ⊎ ((x : String) → (mem x from.1 && held x (take (suc steps) hs) n) ≡ false)

pub mem-intersection :
    (x : String) (eps sel : List String) → mem x (intersection eps sel) ≡ (mem x eps && mem x sel)
unfolding mem intersection
mem-intersection x [] sel = refl
mem-intersection x (y ∷ eps) sel =
    ground (arith, string_eq.same_iff y x, mem-intersection x eps sel)

mem-is_empty : (x : String) (s : List String) → is_empty s ≡ true → mem x s ≡ false
unfolding mem
mem-is_empty x [] h = refl
mem-is_empty x (y ∷ s) h = cc

-- no further step
stay :
    (size : ℕ) (hs : List ℕ) (n : Node) (len : ℕ) (sel : List String)
    → (hs ≡ []) ⊎ ((x : String) → (mem x sel && held x (take 1 hs) n) ≡ false)
    → Walk size hs n (len, sel) (len, sel)
unfolding held
stay size hs n len sel stop = record {
  steps = 0;
  in_range = omega arith;
  walked = omega arith;
  kept = λ x. ground arith;
  maximal = elim stop [ inl e ↦ inl (rw e refl) | inr f ↦ inr f ];
}

-- one step, and the walk from the child
step :
    (size h : ℕ) (hs : List ℕ) (n m : Node) (len : ℕ) (sel : List String) (to : ℕ × List String)
    → child h n ≡ some m
    → Walk size hs m (len + size, intersection (endpoints m) sel) to
    → Walk size (h ∷ hs) n (len, sel) to
unfolding held
step size h hs n m len sel to e w = record {
  steps = suc w.steps;
  in_range = omega (arith, w.in_range);
  walked = omega (arith, w.walked);
  kept = λ x. ground (arith, w.kept x, mem-intersection x (endpoints m) sel);
  maximal = elim w.maximal [
    | inl end ↦ inl (ap suc end)
    | inr f ↦ inr (λ x. ground (arith, f x, mem-intersection x (endpoints m) sel))
  ];
}

-- The loop keeps of `sel` exactly the endpoints that stand on every node of its walk, and it ends
-- only at the end of the request or where no endpoint of `sel` would be left.
pub match_loop-Walk :
    (size : ℕ) (hs : List ℕ) (n : Node) (len : ℕ) (sel : List String)
    → Walk size hs n (len, sel) (match_loop size hs n len sel)
unfolding match_loop held
match_loop-Walk size [] n len sel = stay size [] n len sel (inl refl)
match_loop-Walk size (h ∷ hs) n len sel = elim (Option-cases (child h n)) [
  | inl e ↦ rw (e, match_loop) (stay size (h ∷ hs) n len sel (inr (λ x. ground arith)))
  | inr (m, e) ↦
      rw (e, match_loop)
        (elim (Bool-cases (is_empty (intersection (endpoints m) sel))) [
          | inl stop ↦ rw stop (
              stay size (h ∷ hs) n len sel (
                inr (λ x. ground (
                  arith,
                  mem-is_empty x (intersection (endpoints m) sel) stop,
                  mem-intersection x (endpoints m) sel,
                ))))
          | inr go ↦ rw go (
              step size h hs n m len sel _ e
                (match_loop-Walk size hs m (len + size) (intersection (endpoints m) sel)))
        ])
]

-- The loop does not lose the last endpoint.
pub is_empty-match_loop :
    (size : ℕ) (hs : List ℕ) (n : Node) (len : ℕ) (sel : List String)
    → is_empty sel ≡ false
    → is_empty (match_loop size hs n len sel).1 ≡ false
unfolding match_loop
is_empty-match_loop size [] n len sel h = h
is_empty-match_loop size (j ∷ hs) n len sel h = elim (Option-cases (child j n)) [
  | inl e ↦ rw (e, match_loop) h
  | inr (m, e) ↦
      rw (e, match_loop)
        (elim (Bool-cases (is_empty (intersection (endpoints m) sel))) [
          | inl stop ↦ rw stop h
          | inr go ↦
              rw go (is_empty-match_loop size hs m (len + size) (intersection (endpoints m) sel) go)
        ])
]
