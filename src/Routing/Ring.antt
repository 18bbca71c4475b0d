-- ===== src/Routing/Ring.antt =====
-- `RoutingInterface._update_hash_ring` of src/vllm_router/routers/routing_logic.py, over the ring of
-- the `uhashring` package.
pub mod Sample
use vllm_production_stack_cu.Base.{
  String, ◌≡◌, refl, Bool, true, false, ◌&&◌, ◌||◌, not, Option, some, List, [], ◌∷◌, ◌⊎◌, arith,
  filter, Bool-cases, inl, inr, ◌==◌, string_eq,
}
use vllm_production_stack_cu.Base.Dict.{mem, to_set, mem-to_set}
use vllm_production_stack_cu.Base.Json.{Value}

-- What the router calls of `uhashring.HashRing`.
pub record HashRing : Type 1 where
  pub Ring : Type 0
  pub empty : Ring
  pub get_nodes : Ring → List String
  pub add_node : String → Ring → Ring
  pub remove_node : String → Ring → Ring
  -- the node for a key, `none` on a ring without nodes
  pub get_node : Ring → Value → Option String

-- The documented behaviour of a consistent hash ring: a key has a node as soon as there is one, a
-- new node takes a key or leaves it where it is, and the loss of another node does not move it.
pub record IsRing (h : HashRing) : Type 0 where
  pub nodes-empty : (x : String) → mem x (h.get_nodes h.empty) ≡ false
  pub nodes-add :
      (x n : String) (r : h.Ring)
      → mem x (h.get_nodes (h.add_node n r)) ≡ ((n == x) || mem x (h.get_nodes r))
  pub nodes-remove :
      (x n : String) (r : h.Ring)
      → mem x (h.get_nodes (h.remove_node n r)) ≡ (not (n == x) && mem x (h.get_nodes r))
  pub node_known :
      (r : h.Ring) (k : Value) (u : String) → h.get_node r k ≡ some u → mem u (h.get_nodes r) ≡ true
  pub node_found :
      (r : h.Ring) (k : Value) (x : String)
      → mem x (h.get_nodes r) ≡ true
      → (u : String) × (h.get_node r k ≡ some u)
  pub node-add :
      (r : h.Ring) (k : Value) (n u : String)
      → h.get_node r k ≡ some u
      → (h.get_node (h.add_node n r) k ≡ some u) ⊎ (h.get_node (h.add_node n r) k ≡ some n)
  pub node-remove :
      (r : h.Ring) (k : Value) (n u : String)
      → h.get_node r k ≡ some u
      → (n == u) ≡ false
      → h.get_node (h.remove_node n r) k ≡ some u

-- a - b
unfoldable pub difference : List String → List String → List String
difference a b = filter (λ x. not (mem x b)) a

mem-difference :
    (x : String) (a b : List String) → mem x (difference a b) ≡ (mem x a && not (mem x b))
unfolding difference mem
mem-difference x [] b = refl
mem-difference x (y ∷ a) b =
    ground (arith, string_eq.same_iff y x, mem-difference x a b, Bool-cases (mem y b))

or-true : (b : Bool) → (b || true) ≡ true
or-true b = ground arith

module _ (h : HashRing) where
  open h use {Ring, get_nodes, add_node, remove_node}

  -- the two `for` loops
  unfoldable pub remove_all : List String → Ring → Ring
  remove_all [] r = r
  remove_all (n ∷ ns) r = remove_all ns (remove_node n r)

  unfoldable pub add_all : List String → Ring → Ring
  add_all [] r = r
  add_all (n ∷ ns) r = add_all ns (add_node n r)

  unfoldable pub update_hash_ring : List String → Ring → Ring
  unfolding remove_all add_all difference
  update_hash_ring endpoint_urls r =
      let current_nodes = to_set (get_nodes r) in
      let new_nodes = to_set endpoint_urls in
      add_all (difference new_nodes current_nodes)
        (remove_all (difference current_nodes new_nodes) r)

  module _ (law : IsRing h) where
    mem-remove_all :
        (x : String) (ns : List String) (r : Ring)
        → mem x (get_nodes (remove_all ns r)) ≡ (not (mem x ns) && mem x (get_nodes r))
    unfolding remove_all mem
    mem-remove_all x [] r = refl
    mem-remove_all x (n ∷ ns) r =
        ground (arith, mem-remove_all x ns (remove_node n r), law.nodes-remove x n r)

    mem-add_all :
        (x : String) (ns : List String) (r : Ring)
        → mem x (get_nodes (add_all ns r)) ≡ (mem x ns || mem x (get_nodes r))
    unfolding add_all mem
    mem-add_all x [] r = refl
    mem-add_all x (n ∷ ns) r = ground (arith, mem-add_all x ns (add_node n r), law.nodes-add x n r)

    get_node-remove_all :
        (k : Value) (u : String) (ns : List String) (r : Ring)
        → h.get_node r k ≡ some u
        → mem u ns ≡ false
        → h.get_node (remove_all ns r) k ≡ some u
    unfolding remove_all mem
    get_node-remove_all k u [] r e no_u = e
    get_node-remove_all k u (n ∷ ns) r e no_u =
        get_node-remove_all k u ns (remove_node n r) (law.node-remove r k n u e (ground arith))
          (ground arith)

    get_node-add_all :
        (k : Value) (u : String) (ns : List String) (r : Ring)
        → h.get_node r k ≡ some u
        → (h.get_node (add_all ns r) k ≡ some u)
          ⊎ ((v : String) × (h.get_node (add_all ns r) k ≡ some v) × (mem v ns ≡ true))
    unfolding add_all mem
    get_node-add_all k u [] r e = inl e
    get_node-add_all k u (n ∷ ns) r e = elim (law.node-add r k n u e) [
      | inl same ↦ elim (get_node-add_all k u ns (add_node n r) same) [
        | inl p ↦ inl p
        | inr (v, p, m) ↦ inr (v, p, rw m (or-true (n == v)))
      ]
      | inr moved ↦ elim (get_node-add_all k n ns (add_node n r) moved) [
        | inl p ↦ inr (n, p, ground (arith, string_eq.same_iff n n))
        | inr (v, p, m) ↦ inr (v, p, rw m (or-true (n == v)))
      ]
    ]

    -- With a hash ring that keeps its laws, after the update the nodes of the ring are exactly the
    -- given urls.
    pub nodes-update_hash_ring :
        (x : String) (endpoint_urls : List String) (r : Ring)
        → mem x (get_nodes (update_hash_ring endpoint_urls r)) ≡ mem x endpoint_urls
    unfolding update_hash_ring
    nodes-update_hash_ring x endpoint_urls r =
        let cur = to_set (get_nodes r) in
        let new = to_set endpoint_urls in
        ground (
          arith,
          mem-add_all x (difference new cur) (remove_all (difference cur new) r),
          mem-remove_all x (difference cur new) r,
          mem-difference x new cur,
          mem-difference x cur new,
          mem-to_set x endpoint_urls,
          mem-to_set x (get_nodes r),
        )

    -- A key whose node stays among the urls keeps it, or moves to a url that was not in the ring.
    pub get_node-update_hash_ring :
        (k : Value) (u : String) (endpoint_urls : List String) (r : Ring)
        → h.get_node r k ≡ some u
        → mem u endpoint_urls ≡ true
        → (h.get_node (update_hash_ring endpoint_urls r) k ≡ some u)
          ⊎ ((v : String) × (h.get_node (update_hash_ring endpoint_urls r) k ≡ some v)
              × (mem v endpoint_urls ≡ true)
              × (mem v (get_nodes r) ≡ false))
    unfolding update_hash_ring
    get_node-update_hash_ring k u endpoint_urls r e stays =
        let cur = to_set (get_nodes r) in
        let new = to_set endpoint_urls in
        let kept =
          get_node-remove_all k u (difference cur new) r e
            (ground (arith, mem-difference u cur new, mem-to_set u endpoint_urls)) in
        elim (get_node-add_all k u (difference new cur) (remove_all (difference cur new) r) kept) [
          | inl p ↦ inl p
          | inr (v, p, m) ↦ inr (
            v,
            p,
            ground (arith, mem-difference v new cur, mem-to_set v endpoint_urls, m),
            ground (arith, mem-difference v new cur, mem-to_set v (get_nodes r), m),
          )
        ]
