-- ===== src/Discovery/Models.antt =====
-- The list of models of an engine in src/vllm_router/service_discovery.py: `_get_model_names` and
-- `_get_model_info` of the discovery by pods, and `ModelInfo.from_dict`. The page is what
-- requests.get gives of /v1/models, `none` for an exception; its entries have the fields of the
-- OpenAI list of models, `none` for a key that is missing.
use vllm_production_stack_cu.Base.{
  ℕ, String, ◌≡◌, refl, Bool, true, false, ◌||◌, Option, none, some, List, [], ◌∷◌, string_eq,
  arith,
}
use vllm_production_stack_cu.Base.Dict.{Dict, get, has, put, mem, get-put}
use vllm_production_stack_cu.Discovery.{ModelInfo}

pub record ServedModel : Type 0 where
  pub id : Option String
  pub object : Option String
  pub created : Option ℕ
  pub owned_by : Option String
  pub root : Option String
  pub parent : Option String

-- data.get(key, default)
abbrev pub or_else : {A : Type 0} → Option A → A → A
or_else none a = a
or_else (some b) a = b

abbrev pub is_some : Option String → Bool
is_some none = false
is_some (some s) = true

-- `model_id` is the id of the entry, which was read before; `now` is int(time.time()).
unfoldable pub from_dict : ℕ → String → ServedModel → ModelInfo
from_dict now model_id entry = record {
  id = model_id;
  object = or_else entry.object "model";
  created = or_else entry.created now;
  owned_by = or_else entry.owned_by "vllm";
  root = entry.root;
  parent = entry.parent;
  is_adapter = is_some entry.parent;
}

-- the loop of `_get_model_names`; a missing id is a KeyError
unfoldable pub names_loop : List ServedModel → Option (List String)
names_loop [] = some []
names_loop (model ∷ models) =
    let rest = names_loop models in
    elim model.id [
      | none ↦ none
      | some model_id ↦ elim rest [ none ↦ none | some ids ↦ some (model_id ∷ ids) ]
    ]

unfoldable pub get_model_names : Option (List ServedModel) → List String
unfolding names_loop
get_model_names none = []
get_model_names (some models) = or_else (names_loop models) []

unfoldable pub info_loop :
    ℕ → List ServedModel → Dict String ModelInfo → Option (Dict String ModelInfo)
unfolding from_dict
info_loop now [] d = some d
info_loop now (model ∷ models) d = elim model.id [
  | none ↦ none
  | some model_id ↦ info_loop now models (put model_id (from_dict now model_id model) d)
]

unfoldable pub get_model_info : ℕ → Option (List ServedModel) → Dict String ModelInfo
unfolding info_loop
get_model_info now none = []
get_model_info now (some models) = or_else (info_loop now models []) []

-- what the two loops agree on: both raise, or the keys are the names and the keys of before
Agrees :
    String → Dict String ModelInfo → Option (List String) → Option (Dict String ModelInfo) → Type 0
Agrees k d none none = Unit
Agrees k d (some ids) (some d') = has k d' ≡ (mem k ids || has k d)
Agrees k d _ _ = ⊥

Agrees-put :
    (k model_id : String) (info : ModelInfo) (d : Dict String ModelInfo)
    (names : Option (List String)) (infos : Option (Dict String ModelInfo))
    → Agrees k (put model_id info d) names infos
    → Agrees k d (elim names [ none ↦ none | some ids ↦ some (model_id ∷ ids) ]) infos
unfolding Agrees mem
Agrees-put k model_id info d none none a = tt
Agrees-put k model_id info d (some ids) (some d') a = ground (
  arith,
  a,
  get-put k model_id info d,
  get-put model_id k info d,
  string_eq.same_iff k model_id,
  string_eq.same_iff model_id k,
)
Agrees-put k model_id info d none (some d') a = absurd a
Agrees-put k model_id info d (some ids) none a = absurd a

loops-Agrees :
    (now : ℕ) (k : String) (models : List ServedModel) (d : Dict String ModelInfo)
    → Agrees k d (names_loop models) (info_loop now models d)
unfolding names_loop info_loop Agrees mem
loops-Agrees now k [] d = refl
loops-Agrees now k (model ∷ models) d =
    elim model.id
      as (λ o.
        Agrees k d
          (elim o [
            | none ↦ none
            | some model_id ↦ elim (names_loop models) [
              | none ↦ none
              | some ids ↦ some (model_id ∷ ids)
            ]
          ])
          (elim o [
            | none ↦ none
            | some model_id ↦ info_loop now models (put model_id (from_dict now model_id model) d)
          ])) [
            | none ↦ tt
            | some model_id ↦
                Agrees-put k model_id (from_dict now model_id model) d (names_loop models) _
                  (loops-Agrees now k models (put model_id (from_dict now model_id model) d))
          ]

agreed :
    (k : String) (names : Option (List String)) (infos : Option (Dict String ModelInfo))
    → Agrees k [] names infos
    → has k (or_else infos []) ≡ mem k (or_else names [])
unfolding Agrees mem get
agreed k none none a = refl
agreed k (some ids) (some d) a = ground (arith, a)
agreed k none (some d) a = absurd a
agreed k (some ids) none a = absurd a

-- Whatever the page, the models with information are those that are named.
pub get_model_info_names :
    (now : ℕ) (k : String) (response : Option (List ServedModel))
    → has k (get_model_info now response) ≡ mem k (get_model_names response)
unfolding get_model_info get_model_names mem get
get_model_info_names now k none = refl
get_model_info_names now k (some models) =
    agreed k (names_loop models) (info_loop now models []) (loops-Agrees now k models [])
