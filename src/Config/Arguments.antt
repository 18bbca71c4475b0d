-- ===== src/Config/Arguments.antt =====
-- `validate_args` of src/vllm_router/parsers/parser.py: what the router refuses of its command line.
use vllm_production_stack_cu.Base.{
  ℕ, String, ◌≡◌, Bool, true, false, ◌&&◌, ◌||◌, not, Option, none, some, List, [], ◌∷◌, ◌==◌,
  string_eq, if◌then◌else◌, arith,
}
use vllm_production_stack_cu.Base.Text.{same_text}
use vllm_production_stack_cu.Base.Floats.{Floats}
use vllm_production_stack_cu.Config.{parse_comma_separated_args}

-- The names of the model types, as code points.
abbrev pub all_fields : List (List ℕ)
all_fields =
    (99 ∷ 104 ∷ 97 ∷ 116 ∷ [])
    ∷ (99 ∷ 111 ∷ 109 ∷ 112 ∷ 108 ∷ 101 ∷ 116 ∷ 105 ∷ 111 ∷ 110 ∷ [])
    ∷ (101 ∷ 109 ∷ 98 ∷ 101 ∷ 100 ∷ 100 ∷ 105 ∷ 110 ∷ 103 ∷ 115 ∷ [])
    ∷ (114 ∷ 101 ∷ 114 ∷ 97 ∷ 110 ∷ 107 ∷ [])
    ∷ (115 ∷ 99 ∷ 111 ∷ 114 ∷ 101 ∷ [])
    ∷ (116 ∷ 114 ∷ 97 ∷ 110 ∷ 115 ∷ 99 ∷ 114 ∷ 105 ∷ 112 ∷ 116 ∷ 105 ∷ 111 ∷ 110 ∷ [])
    ∷ (118 ∷ 105 ∷ 115 ∷ 105 ∷ 111 ∷ 110 ∷ [])
    ∷ []

-- a call that returns, exits with 1, or raises a ValueError
pub data Verdict : Type 0 where
  accepted exits value_error : Verdict

-- model_type in all_models
unfoldable pub is_listed : List ℕ → List (List ℕ) → Bool
unfolding same_text
is_listed t [] = false
is_listed t (w ∷ ws) = same_text t w || is_listed t ws

unfoldable pub all_listed : List (List ℕ) → Bool
unfolding is_listed
all_listed [] = true
all_listed (t ∷ ts) = is_listed t all_fields && all_listed ts

unfoldable pub validate_static_model_types : Option (List ℕ) → Verdict
unfolding all_listed parse_comma_separated_args
validate_static_model_types model_types = elim (parse_comma_separated_args model_types) [
  | none ↦ value_error
  | some types ↦ if all_listed types then accepted else value_error
]

-- a text that is given and not empty
abbrev pub is_set : Option String → Bool
is_set none = false
is_set (some s) = not (s == "")

abbrev pub is_some : {A : Type 0} → Option A → Bool
is_some none = false
is_some (some a) = true

-- s == t, for a text that may be missing
abbrev pub is_text : String → Option String → Bool
is_text t none = false
is_text t (some s) = s == t

module _ (fl : Floats) where
  open fl use {F, of_ℕ, lt, sub, truthy}

  -- the arguments that are checked
  pub record RouterArgs : Type 0 where
    pub routing_logic : Option String
    pub service_discovery : Option String
    pub static_backends : Option (List ℕ)
    pub static_models : Option (List ℕ)
    pub static_model_types : Option (List ℕ)
    pub static_backend_health_checks : Bool
    pub k8s_port : Option ℕ
    pub session_key : Option String
    pub log_stats : Bool
    pub log_stats_interval : F
    pub engine_stats_interval : F
    pub request_stats_window : F
    pub sentry_traces_sample_rate : F
    pub sentry_profile_session_sample_rate : F

  -- the checks of the static discovery
  unfoldable pub validate_static : RouterArgs → Verdict
  unfolding validate_static_model_types
  validate_static args =
      if not (is_some args.static_backends) || not (is_some args.static_models)
      then value_error
      else if args.static_backend_health_checks
      then validate_static_model_types args.static_model_types
      else accepted

  -- x <= 0
  abbrev pub at_most_zero : F → Bool
  at_most_zero x = lt x (of_ℕ 0) || not (truthy x)

  -- 0.0 <= x <= 1.0
  abbrev pub is_rate : F → Bool
  is_rate x = (lt (of_ℕ 0) x || not (truthy x)) && (lt x (of_ℕ 1) || not (truthy (sub x (of_ℕ 1))))

  -- the checks after those of the discovery
  unfoldable pub validate_numbers : RouterArgs → Verdict
  validate_numbers args =
      if is_text "k8s" args.service_discovery && not (is_some args.k8s_port)
      then value_error
      else if is_text "session" args.routing_logic && not (is_some args.session_key)
      then value_error
      else if args.log_stats && at_most_zero args.log_stats_interval
      then value_error
      else if at_most_zero args.engine_stats_interval
      then value_error
      else if at_most_zero args.request_stats_window
      then value_error
      else if not (is_rate args.sentry_traces_sample_rate)
      then value_error
      else if not (is_rate args.sentry_profile_session_sample_rate)
      then value_error
      else accepted

  unfoldable pub validate_args : RouterArgs → Verdict
  unfolding validate_static validate_numbers
  validate_args args =
      if not (is_set args.routing_logic) || not (is_set args.service_discovery)
      then exits
      else if is_text "static" args.service_discovery
      then (elim (validate_static args) [
        | accepted ↦ validate_numbers args
        | exits ↦ exits
        | value_error ↦ value_error
      ])
      else validate_numbers args

  -- Arguments that pass the checks and ask for a static discovery with health checks have a list of
  -- back-ends, one of models, and one of model types that are all known.
  pub validate_args_static :
      (args : RouterArgs)
      → validate_args args ≡ accepted
      → is_text "static" args.service_discovery ≡ true
      → args.static_backend_health_checks ≡ true
      → (is_some args.static_backends ≡ true)
        × (is_some args.static_models ≡ true)
        × (validate_static_model_types args.static_model_types ≡ accepted)
  unfolding validate_args validate_static
  validate_args_static args e static checks = ground (arith, e, static, checks)
