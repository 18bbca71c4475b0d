-- ===== src/Routing/Ring/Sample.antt =====
-- A ring that obeys the laws, for tests: the nodes in the order in which they came, the first of
-- them for every key.
use vllm_production_stack_cu.Base.{
  String, ◌≡◌, refl, true, false, ◌&&◌, ◌||◌, not, Option, none, some, List, [], ◌∷◌, ◌++◌, ◌⊎◌,
  inl, arith, filter, ◌==◌, string_eq,
}
use vllm_production_stack_cu.Base.Dict.{mem, mem-append, mem-filter}
use vllm_production_stack_cu.Routing.Ring.{HashRing, IsRing}

abbrev pub head : List String → Option String
head [] = none
head (x ∷ xs) = some x

abbrev pub list_ring : HashRing
list_ring = record {
  Ring = List String;
  empty = [];
  get_nodes = λ r. r;
  add_node = λ n r. r ++ n ∷ [];
  remove_node = λ n r. filter (λ x. not (n == x)) r;
  get_node = λ r k. head r;
}

head-mem : (r : List String) (u : String) → head r ≡ some u → mem u r ≡ true
unfolding mem
head-mem [] u e = cc
head-mem (x ∷ r) u e = ground (arith, string_eq.same_iff x u)

head_found : (r : List String) (x : String) → mem x r ≡ true → (u : String) × (head r ≡ some u)
unfolding mem
head_found [] x e = cc
head_found (y ∷ r) x e = (y, refl)

head-append :
    (r : List String) (n u : String)
    → head r ≡ some u
    → (head (r ++ n ∷ []) ≡ some u) ⊎ (head (r ++ n ∷ []) ≡ some n)
head-append [] n u e = cc
head-append (x ∷ r) n u e = inl e

head-filter :
    (r : List String) (n u : String)
    → head r ≡ some u
    → (n == u) ≡ false
    → head (filter (λ x. not (n == x)) r) ≡ some u
head-filter [] n u e h = cc
head-filter (x ∷ r) n u e h = ground (arith, string_eq.same_iff n u)

list_add : (x n : String) (r : List String) → mem x (r ++ n ∷ []) ≡ ((n == x) || mem x r)
unfolding mem
list_add x n r = ground (arith, mem-append x r (n ∷ []))

list_remove :
    (x n : String) (r : List String)
    → mem x (filter (λ y. not (n == y)) r) ≡ (not (n == x) && mem x r)
list_remove x n r = ground (arith, mem-filter (λ y. not (n == y)) x r)

pub list_ring-IsRing : IsRing list_ring
unfolding mem
list_ring-IsRing = record {
  nodes-empty = λ x. refl;
  nodes-add = list_add;
  nodes-remove = list_remove;
  node_known = λ r k u e. head-mem r u e;
  node_found = λ r k x e. head_found r x e;
  node-add = λ r k n u e. head-append r n u e;
  node-remove = λ r k n u e h. head-filter r n u e h;
}
