-- ===== src/Config/Tests.antt =====
-- The configuration at a small input.
use vllm_production_stack_cu.Base.{
  ℕ, ◌≡◌, refl, Bool, true, false, none, some, List, [], ◌∷◌, length, arith,
}
use vllm_production_stack_cu.Base.Floats.{nat_floats}
use vllm_production_stack_cu.Base.Text.{same_text}
use vllm_production_stack_cu.Config.Arguments.{
  RouterArgs, accepted, value_error, is_listed, all_listed, validate_static_model_types,
  validate_static, validate_numbers, validate_args,
}
use vllm_production_stack_cu.Config.{
  split, onto, Details, backends_of, models_of, for_each, generate_static_backends,
  generate_static_models, parse_comma_separated_args, parse_static_urls,
}
use vllm_production_stack_cu.Config.Lists.{parse_static_urls-generate}

-- the model "m" with the back-ends "a" and "b", and a model without back-ends
abbrev file : List (List ℕ × Details)
file =
    (
      109 ∷ [],
      record { static_backends = some ((97 ∷ []) ∷ (98 ∷ []) ∷ []); static_model_type = none },
    )
    ∷ (110 ∷ [], record { static_backends = none; static_model_type = none })
    ∷ []

abbrev any : List ℕ → Bool
any url = true

parse_static_urls-generate_example :
    (parse_static_urls any (generate_static_backends file) ≡ (97 ∷ []) ∷ (98 ∷ []) ∷ [])
    × (parse_comma_separated_args (some (generate_static_models file))
        ≡ some ((109 ∷ []) ∷ (109 ∷ []) ∷ []))
    × (length (models_of file) ≡ length (backends_of file))
unfolding backends_of models_of for_each
parse_static_urls-generate_example =
    parse_static_urls-generate any file (omega arith) ((refl, tt), ((refl, tt), tt))
      ((refl, tt), ((refl, tt), tt)) (refl, (refl, tt))

-- a static discovery with health checks and the type "chat" for each of two back-ends
abbrev router_args : RouterArgs nat_floats
router_args = record {
  routing_logic = some "roundrobin";
  service_discovery = some "static";
  static_backends = some (97 ∷ 44 ∷ 98 ∷ []);
  static_models = some (109 ∷ 44 ∷ 109 ∷ []);
  static_model_types = some (99 ∷ 104 ∷ 97 ∷ 116 ∷ 44 ∷ 99 ∷ 104 ∷ 97 ∷ 116 ∷ []);
  static_backend_health_checks = true;
  k8s_port = none;
  session_key = none;
  log_stats = false;
  log_stats_interval = 0;
  engine_stats_interval = 30;
  request_stats_window = 60;
  sentry_traces_sample_rate = 1;
  sentry_profile_session_sample_rate = 1;
}

router_args_run : validate_args nat_floats router_args ≡ accepted
unfolding validate_args validate_static validate_static_model_types all_listed is_listed same_text
    parse_comma_separated_args split onto validate_numbers
router_args_run = refl

no_types_run :
    validate_args nat_floats (record router_args { static_model_types = none }) ≡ value_error
unfolding validate_args validate_static validate_static_model_types parse_comma_separated_args
no_types_run = refl
