-- ===== src/Features/Tests.antt =====
-- The feature gates at a small input.
use vllm_production_stack_cu.Base.{
  String, ◌≡◌, refl, Bool, true, false, Option, none, some, List, [], ◌∷◌, string_eq,
}
use vllm_production_stack_cu.Base.Dict.{mem, put}
use vllm_production_stack_cu.Features.{
  is_enabled, initialize_feature_gates, parse_items, configure, enable, disable,
}

-- the last item for a feature counts, and one that is no setting is skipped
abbrev items : List (Option (String × Bool))
items = some ("PIIDetection", true) ∷ none ∷ some ("PIIDetection", false) ∷ []

items_run : is_enabled "PIIDetection" (initialize_feature_gates items ("PIIDetection" ∷ [])) ≡ false
unfolding is_enabled initialize_feature_gates parse_items configure enable disable mem put
items_run = refl
