-- ===== src/Stats/Life/Counts.antt =====
-- How the counters and the dicts of the monitor change, key by key.
use vllm_production_stack_cu.Base.{
  ℕ, ◌+◌, ◌-◌, String, ◌≡◌, refl, sym, Bool, true, ◌||◌, some, List, [], ◌∷◌, ◌++◌, In, inl, inr,
  ◌⊎◌, arith, ◌==◌, string_eq, pair_eq, if◌then◌else◌, Bool-cases,
}
use vllm_production_stack_cu.Base.Dict.{Dict, get, get_or, has, put, get-put}
use vllm_production_stack_cu.Stats.Monitor.{RequestKey, increment, decrement}
use vllm_production_stack_cu.Stats.Life.{count}

pub In-middle : (xs ys : List RequestKey) (r : RequestKey) → In r (xs ++ r ∷ ys)
In-middle [] ys r = inl refl
In-middle (x ∷ xs) ys r = inr (In-middle xs ys r)

pub In-around : (xs ys : List RequestKey) (r q : RequestKey) → In q (xs ++ ys) → In q (xs ++ r ∷ ys)
In-around [] ys r q i = inr i
In-around (x ∷ xs) ys r q (inl e) = inl e
In-around (x ∷ xs) ys r q (inr i) = inr (In-around xs ys r q i)

pub count-append :
    (u : String) (xs ys : List RequestKey) → count u (xs ++ ys) ≡ count u xs + count u ys
count-append u [] ys = omega arith
count-append u (r ∷ xs) ys = omega (arith, count-append u xs ys)

-- one request less
pub count-middle :
    (u : String) (xs ys : List RequestKey) (r : RequestKey)
    → count u (xs ++ r ∷ ys) - (if r.0 == u then 1 else 0) ≡ count u (xs ++ ys)
count-middle u xs ys r = omega (arith, count-append u xs (r ∷ ys), count-append u xs ys)

pub get_or-increment :
    (k u : String) (d : Dict String ℕ)
    → get_or u 0 (increment k d) ≡ (if k == u then 1 else 0) + get_or u 0 d
get_or-increment k u d = ground (arith, get-put k u (get_or k 0 d + 1) d, string_eq.same_iff k u)

pub get_or-decrement :
    (k u : String) (d : Dict String ℕ)
    → get_or u 0 (decrement k d) ≡ get_or u 0 d - (if k == u then 1 else 0)
get_or-decrement k u d = ground (arith, get-put k u (get_or k 1 d - 1) d, string_eq.same_iff k u)

module _ {V : Type 0} where
  pub known-put :
      (k r : RequestKey) (v : V) (d : Dict RequestKey V)
      → (r ≡ k) ⊎ ((t : V) × (get r d ≡ some t))
      → (t : V) × (get r (put k v d) ≡ some t)
  known-put k r v d h = elim (Bool-cases (k == r)) [
    | inl same ↦ (v, ground (arith, get-put k r v d))
    | inr other ↦ elim h [
      | inl e ↦ let x = (pair_eq.same_iff k r).1 (sym e) in absurd (ground arith)
      | inr (t, p) ↦ (t, ground (arith, get-put k r v d))
    ]
  ]

  pub put-known :
      (k r : RequestKey) (v t : V) (d : Dict RequestKey V)
      → get r (put k v d) ≡ some t
      → (r ≡ k) ⊎ (get r d ≡ some t)
  put-known k r v t d h = elim (Bool-cases (k == r)) [
    | inl same ↦ inl (sym ((pair_eq.same_iff k r).0 same))
    | inr other ↦ inr (ground (arith, get-put k r v d))
  ]

  -- a monitor that is made if it is missing
  pub has_ensured :
      (url u : String) (w : V) (d : Dict String V)
      → has u (if has url d then d else put url w d) ≡ ((url == u) || has u d)
  has_ensured url u w d = ground (arith, get-put url u w d, string_eq.same_iff url u)

  pub has-put :
      (url u : String) (w : V) (d : Dict String V) → has u d ≡ true → has u (put url w d) ≡ true
  has-put url u w d h = ground (arith, get-put url u w d)

pub self_or : (u : String) (b : Bool) → ((u == u) || b) ≡ true
self_or u b = ground (arith, string_eq.same_iff u u)

pub or_right : (a b : Bool) → b ≡ true → (a || b) ≡ true
or_right a b h = ground arith
