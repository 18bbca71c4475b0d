-- ===== src/Config/Lists.antt =====
-- Reading the lists that were written.
use vllm_production_stack_cu.Base.{
  ℕ, ◌<◌, ◌≡◌, refl, ap, ◌∙◌, Bool, true, false, some, List, [], ◌∷◌, ◌++◌, map, filter, length,
  eqb, All, arith, length-append, length-map, Option-cases, inl, inr,
}
use vllm_production_stack_cu.Routing.PrefixAware.{join}
use vllm_production_stack_cu.Config.{
  Details, for_each, backends_of, models_of, comma, generate_static_backends,
  generate_static_models, onto, split, parse_comma_separated_args, parse_static_urls,
}

-- The separator is not in the word.
abbrev pub Avoids : ℕ → List ℕ → Type 0
Avoids c w = All (λ x. eqb x c ≡ false) w

split-word : (c : ℕ) (w : List ℕ) → Avoids c w → split c w ≡ w ∷ []
unfolding split onto
split-word c [] y = refl
split-word c (x ∷ w) (other, y) = rw (other, split-word c w y) refl

split-append : (c : ℕ) (w rest : List ℕ) → Avoids c w → split c (w ++ c ∷ rest) ≡ w ∷ split c rest
unfolding split onto
split-append c [] rest y = ground arith
split-append c (x ∷ w) rest (other, y) = rw (other, split-append c w rest y) refl

-- A list with at least one word, none of which has the separator in it, is read back.
pub split-join :
    (c : ℕ) (w : List ℕ) (ws : List (List ℕ))
    → Avoids c w
    → All (Avoids c) ws
    → split c (join c (w ∷ ws)) ≡ w ∷ ws
unfolding join
split-join c w [] y ys = split-word c w y
split-join c w (v ∷ ws) y (y', ys) =
    split-append c w (join c (v ∷ ws)) y ∙ ap (λ r. w ∷ r) (split-join c v ws y' ys)

length-models_of :
    (models : List (List ℕ × Details)) → length (models_of models) ≡ length (backends_of models)
unfolding models_of backends_of for_each
length-models_of [] = refl
length-models_of ((name, details) ∷ models) = elim (Option-cases details.static_backends) [
  | inl missing ↦ rw missing (length-models_of models)
  | inr (us, given) ↦ rw given (
      omega (
        arith,
        length-append (map (λ (u : List ℕ). name) us) (models_of models),
        length-append us (backends_of models),
        length-map (λ (u : List ℕ). name) us,
        length-models_of models,
      ))
]

filter-All : (p : List ℕ → Bool) (xs : List (List ℕ)) → All (λ x. p x ≡ true) xs → filter p xs ≡ xs
filter-All p [] y = refl
filter-All p (x ∷ xs) (t, y) = rw (t, filter-All p xs y, filter) refl

-- The same for a list that is known to have a word.
split-join-All :
    (c : ℕ) (ws : List (List ℕ)) → 0 < length ws → All (Avoids c) ws → split c (join c ws) ≡ ws
split-join-All c [] pos y = absurd (omega arith)
split-join-All c (w ∷ ws) pos (y, ys) = split-join c w ws y ys

-- With at least one back-end, no comma in the names and urls, and urls that are valid, the back-ends
-- and models that the file gives are read as they were written, one model for each back-end, so
-- that the assertion of the static discovery holds.
pub parse_static_urls-generate :
    (validate_url : List ℕ → Bool) (models : List (List ℕ × Details))
    → 0 < length (backends_of models)
    → All (Avoids comma) (backends_of models)
    → All (Avoids comma) (models_of models)
    → All (λ u. validate_url u ≡ true) (backends_of models)
    → (parse_static_urls validate_url (generate_static_backends models) ≡ backends_of models)
      × (parse_comma_separated_args (some (generate_static_models models))
          ≡ some (models_of models))
      × (length (models_of models) ≡ length (backends_of models))
unfolding parse_static_urls parse_comma_separated_args generate_static_backends
    generate_static_models
parse_static_urls-generate validate_url models pos urls names valid = (
  ap (λ us. filter validate_url us) (split-join-All comma (backends_of models) pos urls)
      ∙ filter-All validate_url (backends_of models) valid,
  ap (λ ms. some ms)
      (split-join-All comma (models_of models) (omega (arith, length-models_of models)) names),
  length-models_of models,
)
