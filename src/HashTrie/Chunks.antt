-- ===== src/HashTrie/Chunks.antt =====
-- `_chunk_and_hash` of src/vllm_router/prefix/hashtrie.py.
use mathlib.Core.List.{flatten}
use vllm_production_stack_cu.Base.{
  ℕ, zero, suc, ◌+◌, ◌-◌, ◌*◌, ◌≤◌, ◌<◌, min, ◌≡◌, refl, sym, Option, none, some, List, [], ◌∷◌,
  ◌++◌, map, arith, ltb, eqb, if◌then◌else◌, length, take, drop, length-take, length-drop,
  take-append-drop, Bool-cases, inl, inr, All, length-map,
}

-- range(i, n, step), on fuel
unfoldable pub range_from : ℕ → ℕ → ℕ → ℕ → List ℕ
range_from zero i n step = []
range_from (suc fuel) i n step =
    let rest = range_from fuel (i + step) n step in if ltb i n then i ∷ rest else []

-- xs[i : j]
unfoldable pub slice {ℓ} : {A : Type ℓ} → List A → ℕ → ℕ → List A
slice xs i j = take (j - i) (drop i xs)

-- The slices that are hashed. The length of the request is fuel enough at a positive step.
unfoldable pub chunks : ℕ → List ℕ → List (List ℕ)
unfolding range_from slice
chunks size request =
    map (λ i. slice request i (i + size)) (range_from (length request) 0 (length request) size)

-- `none` is the ValueError of a `range` with step 0.
unfoldable pub chunk_and_hash : (List ℕ → ℕ) → ℕ → List ℕ → Option (List ℕ)
unfolding chunks
chunk_and_hash xxh64 size request =
    if eqb size 0 then none else some (map xxh64 (chunks size request))

drop-drop : (i size : ℕ) (xs : List ℕ) → drop size (drop i xs) ≡ drop (i + size) xs
drop-drop zero size xs = let e : 0 + size ≡ size = omega arith in rw e refl
drop-drop (suc i) zero [] = let e : suc i + 0 ≡ suc i = omega arith in rw e refl
drop-drop (suc i) (suc size) [] =
    let e : suc i + suc size ≡ suc (i + suc size) = omega arith in rw e refl
drop-drop (suc i) size (x ∷ xs) =
    let e : suc i + size ≡ suc (i + size) = omega arith in rw e (drop-drop i size xs)

drop_of_le : (i : ℕ) (xs : List ℕ) → length xs ≤ i → drop i xs ≡ []
drop_of_le zero [] h = refl
drop_of_le zero (x ∷ xs) h = absurd (omega arith)
drop_of_le (suc i) [] h = refl
drop_of_le (suc i) (x ∷ xs) h = drop_of_le i xs (omega arith)

module _ (size : ℕ) (pos : 0 < size) (request : List ℕ) where
  slice-append-drop :
      (i : ℕ) → slice request i (i + size) ++ drop (i + size) request ≡ drop i request
  unfolding slice
  slice-append-drop i =
      let e : i + size - i ≡ size = omega arith in
      rw (e, ← drop-drop i size request) (take-append-drop size (drop i request))

  length-slice : (i : ℕ) → length (slice request i (i + size)) ≡ min size (length request - i)
  unfolding slice
  length-slice i = omega (arith, length-take (i + size - i) (drop i request), length-drop i request)

  cut : List ℕ → List (List ℕ)
  cut is = map (λ i. slice request i (i + size)) is

  flatten-cut :
      (fuel i : ℕ)
      → length request ≤ i + fuel
      → flatten (cut (range_from fuel i (length request) size)) ≡ drop i request
  unfolding cut range_from flatten
  flatten-cut zero i h = sym (drop_of_le i request (omega arith))
  flatten-cut (suc fuel) i h = elim (Bool-cases (ltb i (length request))) [
    | inl t ↦ rw t (rw (flatten-cut fuel (i + size) (omega arith)) (slice-append-drop i))
    | inr f ↦ rw f (sym (drop_of_le i request (ground arith)))
  ]

  All-cut :
      (fuel i : ℕ)
      → All
          (λ c. (0 < length c) × (length c ≤ size))
          (cut (range_from fuel i (length request) size))
  unfolding cut range_from
  All-cut zero i = tt
  All-cut (suc fuel) i = elim (Bool-cases (ltb i (length request))) [
    | inl t ↦
        rw t (
          (ground (arith, length-slice i), ground (arith, length-slice i)),
          All-cut fuel (i + size),
        )
    | inr f ↦ rw f tt
  ]

  -- the number of chunks, rounded up
  length-cut :
      (fuel i : ℕ)
      → length request ≤ i + fuel
      → i < length request + size
      → (length request ≤ i + length (range_from fuel i (length request) size) * size)
        × (i + length (range_from fuel i (length request) size) * size < length request + size)
  unfolding range_from
  length-cut zero i h lt = (omega arith, omega arith)
  length-cut (suc fuel) i h lt = elim (Bool-cases (ltb i (length request))) [
    | inl t ↦ rw t (
        let (a, b) = length-cut fuel (i + size) (omega arith) (ground arith) in
        (omega arith, omega arith))
    | inr f ↦ rw f (ground arith, ground arith)
  ]

  -- With a chunk size of at least 1, the hashed slices are non-empty, none is longer than the chunk
  -- size, put together they are the request, and there are as few of them as that allows.
  pub chunks_lem :
      (flatten (chunks size request) ≡ request)
      × All (λ c. (0 < length c) × (length c ≤ size)) (chunks size request)
      × (length request ≤ length (chunks size request) * size)
      × (length (chunks size request) * size < length request + size)
  unfolding chunks cut
  chunks_lem =
      let (a, b) = length-cut (length request) 0 (omega arith) (omega arith) in
      let e =
        length-map (λ i. slice request i (i + size))
          (range_from (length request) 0 (length request) size) in
      (
        flatten-cut (length request) 0 (omega arith),
        All-cut (length request) 0,
        rw e (omega arith),
        rw e (omega arith),
      )
