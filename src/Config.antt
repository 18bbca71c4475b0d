-- ===== src/Config.antt =====
-- The static engines of a configuration file: src/vllm_router/parsers/yaml_utils.py writes them as
-- lists with commas, which src/vllm_router/utils.py reads. A text is its list of code points.
pub mod Lists
pub mod Arguments
pub mod Watcher
mod Tests
use vllm_production_stack_cu.Base.{
  ℕ, String, Bool, true, false, Option, none, some, List, [], ◌∷◌, ◌++◌, map, filter, length, eqb,
  if◌then◌else◌,
}
use vllm_production_stack_cu.Routing.PrefixAware.{join}

-- the entry of one model; a missing key is `none`
pub record Details : Type 0 where
  pub static_backends : Option (List (List ℕ))
  pub static_model_type : Option (List ℕ)

-- [x] * n, with n the length of a list
unfoldable pub for_each : List ℕ → List (List ℕ) → List (List ℕ)
for_each x us = map (λ u. x) us

unfoldable pub backends_of : List (List ℕ × Details) → List (List ℕ)
backends_of [] = []
backends_of ((name, details) ∷ models) = elim details.static_backends [
  | none ↦ backends_of models
  | some us ↦ us ++ backends_of models
]

unfoldable pub models_of : List (List ℕ × Details) → List (List ℕ)
unfolding for_each
models_of [] = []
models_of ((name, details) ∷ models) = elim details.static_backends [
  | none ↦ models_of models
  | some us ↦ for_each name us ++ models_of models
]

unfoldable pub model_types_of : List (List ℕ × Details) → List (List ℕ)
unfolding for_each
model_types_of [] = []
model_types_of ((name, details) ∷ models) = elim details.static_model_type [
  | none ↦ model_types_of models
  | some model_type ↦ elim details.static_backends [
    | none ↦ model_types_of models
    | some us ↦ for_each model_type us ++ model_types_of models
  ]
]

-- ","
abbrev pub comma : ℕ
comma = 44

unfoldable pub generate_static_backends : List (List ℕ × Details) → List ℕ
unfolding backends_of join
generate_static_backends models = join comma (backends_of models)

unfoldable pub generate_static_models : List (List ℕ × Details) → List ℕ
unfolding models_of join
generate_static_models models = join comma (models_of models)

unfoldable pub generate_static_model_types : List (List ℕ × Details) → List ℕ
unfolding model_types_of join
generate_static_model_types models = join comma (model_types_of models)

-- a character in front of the first word
unfoldable pub onto : ℕ → List (List ℕ) → List (List ℕ)
onto x [] = (x ∷ []) ∷ []
onto x (w ∷ ws) = (x ∷ w) ∷ ws

-- s.split(c)
unfoldable pub split : ℕ → List ℕ → List (List ℕ)
unfolding onto
split c [] = [] ∷ []
split c (x ∷ xs) = let rest = split c xs in if eqb x c then [] ∷ rest else onto x rest

unfoldable pub parse_comma_separated_args : Option (List ℕ) → Option (List (List ℕ))
unfolding split
parse_comma_separated_args none = none
parse_comma_separated_args (some s) = some (split comma s)

-- `validate_url` is a parameter; a url that fails it is skipped.
unfoldable pub parse_static_urls : (List ℕ → Bool) → List ℕ → List (List ℕ)
unfolding split
parse_static_urls validate_url static_backends = filter validate_url (split comma static_backends)
