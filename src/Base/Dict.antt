-- ===== src/Base/Dict.antt =====
-- Python's `dict` as an association list that keeps the place of a key that is written again, and
-- Python's `set` as a list without repetitions.
use mathlib.Core.Path.{◌≡◌, refl, sym}
use mathlib.Core.Logic.{inl, inr}
use mathlib.Core.Bool.{Bool, true, false, ◌||◌, ◌&&◌}
use mathlib.Core.Option.{Option, none, some}
use mathlib.Core.List.{List, [], ◌∷◌, ◌++◌, map}
use native.Mathlib.Omega.{arith}
use vllm_production_stack_cu.Base.Tests.{if◌then◌else◌, Bool-cases}
use vllm_production_stack_cu.Base.Lists.{In, filter}
use vllm_production_stack_cu.Base.Keys.{Key, ◌==◌, string_eq}
use Prim.Native.String.{String}

abbrev pub Dict {ℓ κ} : Type ℓ → Type κ → Type (ℓ ⊔ κ)
Dict K V = List (K × V)

module _ {ℓ κ} {K : Type ℓ} {V : Type κ} ⦃e : Key K⦄ where
  -- d.get(k)
  unfoldable pub get : K → Dict K V → Option V
  get k [] = none
  get k ((j, v) ∷ d) = if j == k then some v else get k d

  -- d.get(k, default)
  abbrev pub get_or : K → V → Dict K V → V
  get_or k v d = elim (get k d) [ none ↦ v | some w ↦ w ]

  -- k in d
  abbrev pub has : K → Dict K V → Bool
  has k d = elim (get k d) [ none ↦ false | some w ↦ true ]

  -- d[k] = v
  unfoldable pub put : K → V → Dict K V → Dict K V
  put k v [] = (k, v) ∷ []
  put k v ((j, w) ∷ d) = if j == k then (j, v) ∷ d else (j, w) ∷ put k v d

  -- del d[k], d.pop(k, None)
  unfoldable pub remove : K → Dict K V → Dict K V
  remove k [] = []
  remove k ((j, v) ∷ d) = let rest = remove k d in if j == k then rest else (j, v) ∷ rest

  -- d.keys()
  abbrev pub keys : Dict K V → List K
  keys d = map (λ p. p.0) d

  pub get-empty : (k : K) → get k [] ≡ none
  unfolding get
  get-empty k = refl

  pub get-put :
      (k j : K) (v : V) (d : Dict K V) → get j (put k v d) ≡ (if k == j then some v else get j d)
  unfolding get put
  get-put k j v [] = refl
  get-put k j v ((i, w) ∷ d) =
      ground (arith, e.same_iff k j, e.same_iff i k, e.same_iff i j, get-put k j v d)

  pub get-remove :
      (k j : K) (d : Dict K V) → get j (remove k d) ≡ (if k == j then none else get j d)
  unfolding get remove
  get-remove k j [] = ground arith
  get-remove k j ((i, v) ∷ d) =
      ground (arith, e.same_iff i k, e.same_iff i j, e.same_iff k j, get-remove k j d)

pub ruleset dict_laws = (get-empty, get-put, get-remove)

module _ {ℓ} {A : Type ℓ} ⦃e : Key A⦄ where
  -- a in s
  unfoldable pub mem : A → List A → Bool
  mem a [] = false
  mem a (x ∷ s) = (x == a) || mem a s

  -- s.add(a)
  unfoldable pub add : A → List A → List A
  add a [] = a ∷ []
  add a (x ∷ s) = if x == a then x ∷ s else x ∷ add a s

  pub mem-add : (a b : A) (s : List A) → mem b (add a s) ≡ ((a == b) || mem b s)
  unfolding mem add
  mem-add a b [] = refl
  mem-add a b (x ∷ s) =
      ground (arith, e.same_iff a b, e.same_iff x a, e.same_iff x b, mem-add a b s)

  -- set(xs)
  unfoldable pub to_set : List A → List A
  unfolding add
  to_set [] = []
  to_set (x ∷ xs) = add x (to_set xs)

  pub mem-to_set : (x : A) (xs : List A) → mem x (to_set xs) ≡ mem x xs
  unfolding to_set mem
  mem-to_set x [] = refl
  mem-to_set x (y ∷ xs) = ground (arith, mem-add y x (to_set xs), mem-to_set x xs)

module _ {A : Type 0} ⦃e : Key A⦄ where
  pub mem-In : (a : A) (s : List A) → In a s → mem a s ≡ true
  unfolding mem
  mem-In a [] m = elim m [ ]
  mem-In a (x ∷ s) (inl p) = ground (arith, e.same_iff x a)
  mem-In a (x ∷ s) (inr m) = ground (arith, mem-In a s m)

  pub In-mem : (a : A) (s : List A) → mem a s ≡ true → In a s
  unfolding mem
  In-mem a [] h = cc
  In-mem a (x ∷ s) h = elim (Bool-cases (x == a)) [
    | inl t ↦ inl (sym ((e.same_iff x a).0 t))
    | inr f ↦ inr (In-mem a s (ground arith))
  ]

module _ {ℓ κ} {K : Type ℓ} {V : Type κ} ⦃e : Key K⦄ where
  pub mem-keys : (k : K) (d : Dict K V) → mem k (keys d) ≡ has k d
  unfolding mem get
  mem-keys k [] = refl
  mem-keys k ((j, v) ∷ d) = ground (arith, mem-keys k d)

module _ {ℓ} {A : Type ℓ} ⦃e : Key A⦄ where
  pub mem-append : (a : A) (xs ys : List A) → mem a (xs ++ ys) ≡ (mem a xs || mem a ys)
  unfolding mem
  mem-append a [] ys = refl
  mem-append a (x ∷ xs) ys = ground (arith, mem-append a xs ys)

  pub mem-filter : (p : A → Bool) (a : A) (xs : List A) → mem a (filter p xs) ≡ (mem a xs && p a)
  unfolding mem
  mem-filter p a [] = refl
  mem-filter p a (x ∷ xs) = elim (Bool-cases (x == a)) [
    | inl same ↦
        let q = (e.same_iff x a).0 same in ground (arith, mem-filter p a xs, Bool-cases (p x))
    | inr other ↦ ground (arith, mem-filter p a xs, Bool-cases (p x))
  ]

module _ {V : Type 0} where
  -- no key twice, as in a Python dict
  abbrev pub IsDistinct : Dict String V → Type 0
  IsDistinct [] = Unit
  IsDistinct ((k, v) ∷ d) = (has k d ≡ false) × IsDistinct d

  has-put :
      (k j : String) (v : V) (d : Dict String V)
      → has j (put k v d) ≡ (if k == j then true else has j d)
  has-put k j v d = ground (arith, get-put k j v d)

  pub put-IsDistinct :
      (k : String) (v : V) (d : Dict String V) → IsDistinct d → IsDistinct (put k v d)
  unfolding put get
  put-IsDistinct k v [] y = (refl, tt)
  put-IsDistinct k v ((j, w) ∷ d) (fresh, y) = elim (Bool-cases (j == k)) [
    | inl same ↦ rw same (fresh, y)
    | inr other ↦ rw other (
      ground (arith, has-put k j v d, string_eq.same_iff k j, string_eq.same_iff j k),
      put-IsDistinct k v d y,
    )
  ]
