-- ===== src/Base/Sort.antt =====
-- Python's `sorted(xs, key=...)` with texts as keys: the stable sort, as an insertion sort.
use Prim.Native.Char.{code}
use Prim.Native.String.{String}
use mathlib.Core.Path.{◌≡◌, refl, ap}
use mathlib.Core.Bool.{Bool, true, false, ◌&&◌, ◌||◌}
use mathlib.Core.List.{List, [], ◌∷◌, map, Perm}
use mathlib.Core.List.Perm
use native.Mathlib.Omega.{arith}
use vllm_production_stack_cu.Base.Tests.{eqb, ltb, if◌then◌else◌, Bool-cases}
use vllm_production_stack_cu.Base.Lists.{length}
use mathlib.Core.Logic.{inl, inr}

-- a <= b, by code points
unfoldable pub text_leb : String → String → Bool
text_leb String.[] b = true
text_leb (String.◌∷◌ c a) String.[] = false
text_leb (String.◌∷◌ c a) (String.◌∷◌ d b) =
    ltb (code c) (code d) || (eqb (code c) (code d) && text_leb a b)

module _ {ℓ} {A : Type ℓ} (key : A → String) where
  unfoldable pub insert_by : A → List A → List A
  insert_by x [] = x ∷ []
  insert_by x (y ∷ ys) = if text_leb (key x) (key y) then x ∷ y ∷ ys else y ∷ insert_by x ys

  unfoldable pub sort_by : List A → List A
  unfolding insert_by text_leb
  sort_by [] = []
  sort_by (x ∷ xs) = insert_by x (sort_by xs)

  insert_by-perm : (x : A) (ys : List A) → Perm (insert_by x ys) (x ∷ ys)
  unfolding insert_by
  insert_by-perm x [] = Perm.refl (x ∷ [])
  insert_by-perm x (y ∷ ys) = elim (Bool-cases (text_leb (key x) (key y))) [
    | inl t ↦ rw t (Perm.refl (x ∷ y ∷ ys))
    | inr f ↦ rw f (Perm.trans (Perm.cons y (insert_by-perm x ys)) (Perm.swap x y ys))
  ]

  -- The sorted list is a rearrangement of the list.
  pub sort_by-perm : (xs : List A) → Perm (sort_by xs) xs
  unfolding sort_by
  sort_by-perm [] = Perm.refl []
  sort_by-perm (x ∷ xs) = Perm.trans (insert_by-perm x (sort_by xs)) (Perm.cons x (sort_by-perm xs))

  length-insert_by : (x : A) (ys : List A) → length (insert_by x ys) ≡ length (x ∷ ys)
  unfolding insert_by
  length-insert_by x [] = refl
  length-insert_by x (y ∷ ys) = ground (arith, length-insert_by x ys)

  pub length-sort_by : (xs : List A) → length (sort_by xs) ≡ length xs
  unfolding sort_by
  length-sort_by [] = refl
  length-sort_by (x ∷ xs) = omega (arith, length-insert_by x (sort_by xs), length-sort_by xs)

-- the keys of the sorted list, as the sorted list of the keys
map-insert_by {ℓ} :
    {A : Type ℓ} (key : A → String) (x : A) (ys : List A)
    → map key (insert_by key x ys) ≡ insert_by (λ k. k) (key x) (map key ys)
unfolding insert_by
map-insert_by key x [] = refl
map-insert_by key x (y ∷ ys) = elim (Bool-cases (text_leb (key x) (key y))) [
  | inl t ↦ rw t refl
  | inr f ↦ rw f (ap (◌∷◌ (key y)) (map-insert_by key x ys))
]

pub map-sort_by {ℓ} :
    {A : Type ℓ} (key : A → String) (xs : List A)
    → map key (sort_by key xs) ≡ sort_by (λ k. k) (map key xs)
unfolding sort_by
map-sort_by key [] = refl
map-sort_by key (x ∷ xs) = rw (map-insert_by key x (sort_by key xs), map-sort_by key xs) refl
