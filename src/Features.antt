-- ===== src/Features.antt =====
-- `FeatureGates` of src/vllm_router/experimental/feature_gates.py.
mod Tests
use vllm_production_stack_cu.Base.{
  String, ◌≡◌, refl, ◌∙◌, Bool, true, false, Option, none, some, List, [], ◌∷◌, map, filter, arith,
  ◌==◌, string_eq, if◌then◌else◌, not, Bool-cases, inl, inr, ◌&&◌,
}
use vllm_production_stack_cu.Base.Dict.{
  Dict, get, put, mem, add, mem-add, mem-filter, get-put, IsDistinct, put-IsDistinct,
}

unfoldable pub enable : String → List String → List String
enable feature enabled = add feature enabled

-- discard
unfoldable pub disable : String → List String → List String
disable feature enabled = filter (λ f. not (f == feature)) enabled

unfoldable pub is_enabled : String → List String → Bool
is_enabled feature enabled = mem feature enabled

unfoldable pub configure : Dict String Bool → List String → List String
unfolding enable disable
configure [] enabled = enabled
configure ((feature, on) ∷ config) enabled =
    configure config (if on then enable feature enabled else disable feature enabled)

-- The items of the configuration as they are split at "=", stripped and compared with "true"; an
-- item without "=" is none. A name that comes again replaces its value.
unfoldable pub parse_items : List (Option (String × Bool)) → Dict String Bool → Dict String Bool
parse_items [] features = features
parse_items (none ∷ items) features = parse_items items features
parse_items (some (name, on) ∷ items) features = parse_items items (put name on features)

-- after the configuration string was split
unfoldable pub initialize_feature_gates : List (Option (String × Bool)) → List String → List String
unfolding parse_items configure
initialize_feature_gates items enabled = configure (parse_items items []) enabled

-- what the last item with a name says of it
unfoldable pub last_setting : String → List (Option (String × Bool)) → Option Bool → Option Bool
last_setting f [] before = before
last_setting f (none ∷ items) before = last_setting f items before
last_setting f (some (name, on) ∷ items) before =
    last_setting f items (if name == f then some on else before)

is_enabled-enable :
    (f feature : String) (enabled : List String)
    → is_enabled f (enable feature enabled) ≡ (if feature == f then true else is_enabled f enabled)
unfolding is_enabled enable
is_enabled-enable f feature enabled = ground (arith, mem-add feature f enabled)

is_enabled-disable :
    (f feature : String) (enabled : List String)
    → is_enabled f (disable feature enabled)
      ≡ (if feature == f then false else is_enabled f enabled)
unfolding is_enabled disable
is_enabled-disable f feature enabled = ground (
  arith,
  mem-filter (λ g. not (g == feature)) f enabled,
  string_eq.same_iff feature f,
  string_eq.same_iff f feature,
)

get-parse_items :
    (f : String) (items : List (Option (String × Bool))) (features : Dict String Bool)
    → get f (parse_items items features) ≡ last_setting f items (get f features)
unfolding parse_items last_setting
get-parse_items f [] features = refl
get-parse_items f (none ∷ items) features = get-parse_items f items features
get-parse_items f (some (name, on) ∷ items) features =
    get-parse_items f items (put name on features) ∙ rw (get-put name f on features) refl

parse_items-IsDistinct :
    (items : List (Option (String × Bool))) (features : Dict String Bool)
    → IsDistinct features
    → IsDistinct (parse_items items features)
unfolding parse_items
parse_items-IsDistinct [] features y = y
parse_items-IsDistinct (none ∷ items) features y = parse_items-IsDistinct items features y
parse_items-IsDistinct (some (name, on) ∷ items) features y =
    parse_items-IsDistinct items (put name on features) (put-IsDistinct name on features y)

is_enabled-configure :
    (f : String) (config : Dict String Bool) (enabled : List String)
    → IsDistinct config
    → is_enabled f (configure config enabled)
      ≡ (elim (get f config) [ some on ↦ on | none ↦ is_enabled f enabled ])
unfolding configure get
is_enabled-configure f [] enabled y = refl
is_enabled-configure f ((feature, true) ∷ config) enabled (fresh, y) = ground (
  arith,
  is_enabled-configure f config (enable feature enabled) y,
  is_enabled-enable f feature enabled,
  string_eq.same_iff feature f,
)
is_enabled-configure f ((feature, false) ∷ config) enabled (fresh, y) = ground (
  arith,
  is_enabled-configure f config (disable feature enabled) y,
  is_enabled-disable f feature enabled,
  string_eq.same_iff feature f,
)

-- After the configuration a feature is on or off as its last item says, and as it was before
-- without an item.
pub is_enabled-initialize_feature_gates :
    (f : String) (items : List (Option (String × Bool))) (enabled : List String)
    → is_enabled f (initialize_feature_gates items enabled)
      ≡ (elim (last_setting f items none) [ some on ↦ on | none ↦ is_enabled f enabled ])
unfolding initialize_feature_gates get
is_enabled-initialize_feature_gates f items enabled =
    is_enabled-configure f (parse_items items []) enabled (parse_items-IsDistinct items [] tt)
    ∙ rw (get-parse_items f items []) refl
