-- ===== src/Config/Watcher/Settings.antt =====
-- The configuration that is read from the file, `DynamicRouterConfig` of
-- src/vllm_router/dynamic_config.py, and `parse_static_aliases` of src/vllm_router/utils.py.
use vllm_production_stack_cu.Base.{
  ℕ, String, Bool, Option, none, some, List, [], ◌∷◌, map, is_empty, ◌==◌, string_eq, if◌then◌else◌,
  Bool-cases, inl, inr, arith,
}
use native.Mathlib.Decide.{ℕ_discrete}
use vllm_production_stack_cu.Base.Dict.{Dict, put}
use vllm_production_stack_cu.Config.{split, comma}

abbrev pub Text : Type 0
Text = List ℕ

-- The lists with commas are code points, all else texts.
pub record DynamicRouterConfig : Type 0 where
  pub service_discovery : String
  pub routing_logic : String
  pub static_backends : Option Text
  pub static_models : Option Text
  pub static_aliases : Option Text
  pub static_model_labels : Option Text
  pub static_model_types : Option Text
  pub static_backend_health_checks : Option Bool
  pub prefill_model_labels : Option Text
  pub decode_model_labels : Option Text
  pub k8s_port : Option String
  pub k8s_namespace : Option String
  pub k8s_label_selector : Option String
  pub session_key : Option String
  pub callbacks : Option String

-- `:`
abbrev colon : ℕ
colon = 58

-- alias, model = s.split(":"), `none` for the ValueError
unfoldable pub alias_and_model : List Text → Option (Text × Text)
alias_and_model (alias ∷ model ∷ []) = some (alias, model)
alias_and_model _ = none

module _ (string : Text → String) where
  unfoldable pub aliases_in : List Text → Dict String String → Option (Dict String String)
  unfolding alias_and_model split
  aliases_in [] aliases = some aliases
  aliases_in (s ∷ rest) aliases = elim (alias_and_model (split colon s)) [
    | none ↦ none
    | some (alias, model) ↦ aliases_in rest (put (string alias) (string model) aliases)
  ]

  unfoldable pub parse_static_aliases : Text → Option (Dict String String)
  unfolding aliases_in
  parse_static_aliases static_aliases = aliases_in (split comma static_aliases) []

  -- the aliases, none where the text is missing or empty; the outer `none` is the ValueError
  unfoldable pub aliases_of : Option Text → Option (Option (Dict String String))
  unfolding parse_static_aliases
  aliases_of none = some none
  aliases_of (some s) =
      if is_empty s
      then some none
      else (elim (parse_static_aliases s) [ none ↦ none | some aliases ↦ some (some aliases) ])

  abbrev pub texts : Option (List Text) → Option (List String)
  texts none = none
  texts (some ts) = some (map string ts)

pub string_discrete : Discrete String
string_discrete s t = elim (Bool-cases (s == t)) [
  | inl e ↦ yes ((string_eq.same_iff s t).0 e)
  | inr e ↦ no (λ p. ground (arith, (string_eq.same_iff s t).1 p, e))
]

-- config == self.current_config, field by field
pub config_discrete : Discrete DynamicRouterConfig
config_discrete = hlevel (string_discrete, ℕ_discrete)
