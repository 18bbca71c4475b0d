-- ===== src/Cache/Sample.antt =====
-- An index that obeys the laws, for tests: vectors of one coordinate, in a list.
use vllm_production_stack_cu.Base.{
  ℕ, zero, suc, ◌*◌, ◌≡◌, refl, subst, Bool, true, false, Option, none, some, List, [], ◌∷◌, ◌++◌,
  length, get_elem?, All, arith, leb, if◌then◌else◌, ◌==◌, string_eq, Bool-cases, inl, inr,
}
use vllm_production_stack_cu.Base.Json.{Value}
use vllm_production_stack_cu.Cache.{Outside, IsFlat}

unfoldable pub best : List ℕ → ℕ → Option (ℕ × ℕ)
best [] q = none
best (e ∷ es) q = elim (best es q) [
  | none ↦ some (zero, q * e)
  | some (i, s) ↦ if leb s (q * e) then some (zero, q * e) else some (suc i, s)
]

-- Only texts are compared.
abbrev pub same_text : Value → Value → Bool
same_text (Value.str s) (Value.str t) = s == t
same_text _ _ = false

-- All lists of messages have the same vector.
abbrev pub embed : Value → Option ℕ
embed (Value.arr is) = some 3
embed _ = none

abbrev pub list_index : Outside
list_index = record {
  Embedding = ℕ;
  Index = List ℕ;
  Score = ℕ;
  get_embedding = embed;
  empty_index = [];
  ntotal = length;
  add_vector = λ e x. x ++ e ∷ [];
  nearest = best;
  at_least = λ s t. leb t s;
  same_value = same_text;
}

All-weaken :
    (q s t : ℕ) (es : List ℕ)
    → leb s t ≡ true
    → All (λ e. leb (q * e) s ≡ true) es
    → All (λ e. leb (q * e) t ≡ true) es
All-weaken q s t [] le a = tt
All-weaken q s t (e ∷ es) le (h, a) = (ground (arith, h, le), All-weaken q s t es le a)

best-none : (es : List ℕ) (q : ℕ) → best es q ≡ none → es ≡ []
unfolding best
best-none [] q h = refl
best-none (e ∷ es) q h = ground (arith, h)

-- a place with a greatest product
abbrev IsBest : List ℕ → ℕ → Option (ℕ × ℕ) → Type 0
IsBest es q none = ⊥
IsBest es q (some (i, s)) =
    (e : ℕ) × (get_elem? es i ≡ some e) × (s ≡ q * e) × All (λ e'. leb (q * e') s ≡ true) es

first-IsBest : (e q : ℕ) → IsBest (e ∷ []) q (some (zero, q * e))
first-IsBest e q = (e, refl, refl, (ground arith, tt))

step-IsBest :
    (e q i s : ℕ) (es : List ℕ)
    → IsBest es q (some (i, s))
    → IsBest (e ∷ es) q (if leb s (q * e) then some (zero, q * e) else some (suc i, s))
step-IsBest e q i s es (x, place, score, greatest) = elim (Bool-cases (leb s (q * e))) [
  | inl t ↦ rw t (e, refl, refl, (ground arith, All-weaken q s (q * e) es t greatest))
  | inr f ↦ rw f (x, place, score, (ground (arith, f), greatest))
]

best-IsBest : (e q : ℕ) (es : List ℕ) → IsBest (e ∷ es) q (best (e ∷ es) q)
unfolding best
best-IsBest e q [] = first-IsBest e q
best-IsBest e q (x ∷ es) = go (best (x ∷ es) q) (best-IsBest x q es)
  where
    go :
        (o : Option (ℕ × ℕ))
        → IsBest (x ∷ es) q o
        → IsBest (e ∷ x ∷ es) q (elim o [
          | none ↦ some (zero, q * e)
          | some (i, s) ↦ if leb s (q * e) then some (zero, q * e) else some (suc i, s)
        ])
    go none h = absurd h
    go (some (i, s)) h = step-IsBest e q i s (x ∷ es) h

best-found : (es : List ℕ) (q i s : ℕ) → best es q ≡ some (i, s) → IsBest es q (some (i, s))
unfolding best
best-found [] q i s h = absurd cc
best-found (e ∷ es) q i s h = subst (λ r. IsBest (e ∷ es) q r) h (best-IsBest e q es)

pub list_index-IsFlat : IsFlat list_index
list_index-IsFlat = record {
  inner = λ q e. q * e;
  vectors = λ x. x;
  vectors-empty = refl;
  vectors-add = λ e x. refl;
  ntotal-length = λ x. refl;
  found = λ x q i s h. best-found x q i s h;
  none_found = λ x q h. best-none x q h;
}
