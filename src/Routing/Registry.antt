-- ===== src/Routing/Registry.antt =====
-- The registry of routers in src/vllm_router/routers/routing_logic.py, over `SingletonABCMeta` of
-- src/vllm_router/utils.py: `initialize_routing_logic`, `reconfigure_routing_logic`,
-- `get_routing_logic` and `cleanup_routing_logic`.
pub mod Fresh
mod Tests
use vllm_production_stack_cu.Base.{
  ℕ, String, ◌≡◌, refl, ap, ◌∙◌, Bool, true, false, Option, none, some, List, [], ◌∷◌, arith, ◌==◌,
  string_eq, if◌then◌else◌, Option-cases, Bool-cases, inl, inr,
}
use vllm_production_stack_cu.Base.Dict.{Dict, get, has, put, remove, get-put, get-remove, mem}
use vllm_production_stack_cu.Base.Floats.{Floats}
use vllm_production_stack_cu.HashTrie.{HashTrie, new_trie}
use vllm_production_stack_cu.Routing.RoundRobin.{RoundRobin, new_round_robin}
use vllm_production_stack_cu.Routing.Ring.{HashRing}
use vllm_production_stack_cu.Routing.Session.{SessionRouter, new_session_router}
use vllm_production_stack_cu.Routing.KvAware.{Services, KvawareRouter, new_kvaware_router}

-- the keyword arguments that are read
pub record Arguments : Type 0 where
  pub session_key : Option String
  pub kv_aware_threshold : Option ℕ
  pub prefill_model_labels : Option (List String)
  pub decode_model_labels : Option (List String)

-- the classes, in the order in which they are looked up
abbrev pub classes : List String
classes =
    "SessionRouter" ∷ "RoundRobinRouter" ∷ "KvawareRouter" ∷ "PrefixAwareRouter"
    ∷ "DisaggregatedPrefillRouter" ∷ []

module _ (fl : Floats) (h : HashRing) (s : Services) where
  pub data Router : Type 0 where
    session : SessionRouter fl h → Router
    round_robin : RoundRobin → Router
    kvaware : KvawareRouter fl h s → Router
    prefix_aware : HashTrie → Router
    disaggregated : Option (List String) → Option (List String) → Router

  -- `_instances`, by the names of the classes
  abbrev pub Registry : Type 0
  Registry = Dict String Router

  -- A class is called with what its constructor gives, `none` if that raises.
  unfoldable pub singleton : String → Option Router → Registry → Registry × Option Router
  singleton cls made instances = elim (get cls instances) [
    | some instance' ↦ (instances, some instance')
    | none ↦ elim made [ none ↦ (instances, none) | some r ↦ (put cls r instances, some r) ]
  ]

  abbrev pub session_of : Option (SessionRouter fl h) → Option Router
  session_of none = none
  session_of (some r) = some (session r)

  -- `controller` tells whether the LMCache controller of a KV-aware router can be made, and
  -- `chunk_size` is the default of the trie.
  module _ (controller : Bool) (chunk_size : ℕ) where
    -- the class of a routing logic and what its constructor gives, `none` for a ValueError
    unfoldable pub constructed : String → Arguments → Option (String × Option Router)
    constructed routing_logic a =
        if routing_logic == "roundrobin"
        then some ("RoundRobinRouter", some (round_robin new_round_robin))
        else if routing_logic == "session"
        then some ("SessionRouter", session_of (new_session_router fl h a.session_key))
        else if routing_logic == "kvaware"
        then some (
          "KvawareRouter",
          (if controller
              then some (kvaware (new_kvaware_router fl h s a.session_key a.kv_aware_threshold))
              else none),
        )
        else if routing_logic == "prefixaware"
        then some ("PrefixAwareRouter", some (prefix_aware (new_trie chunk_size)))
        else if routing_logic == "disaggregated_prefill"
        then some (
          "DisaggregatedPrefillRouter",
          some (disaggregated a.prefill_model_labels a.decode_model_labels),
        )
        else none

    unfoldable pub initialize_routing_logic :
        Registry → String → Arguments → Registry × Option Router
    unfolding constructed singleton
    initialize_routing_logic instances routing_logic a = elim (constructed routing_logic a) [
      | none ↦ (instances, none)
      | some (cls, made) ↦ singleton cls made instances
    ]

    unfoldable pub first_of_classes : Registry → List String → Option Router
    first_of_classes instances [] = none
    first_of_classes instances (cls ∷ rest) = elim (get cls instances) [
      | some r ↦ some r
      | none ↦ first_of_classes instances rest
    ]

    -- `none` is the ValueError.
    unfoldable pub get_routing_logic : Registry → Option Router
    unfolding first_of_classes
    get_routing_logic instances = first_of_classes instances classes

    unfoldable pub remove_classes : List String → Registry → Registry
    remove_classes [] instances = instances
    remove_classes (cls ∷ rest) instances =
        remove_classes rest (if has cls instances then remove cls instances else instances)

    unfoldable pub cleanup_routing_logic : Registry → Registry
    unfolding remove_classes
    cleanup_routing_logic instances = remove_classes classes instances

    unfoldable pub reconfigure_routing_logic :
        Registry → String → Arguments → Registry × Option Router
    unfolding cleanup_routing_logic initialize_routing_logic
    reconfigure_routing_logic instances routing_logic a =
        initialize_routing_logic (cleanup_routing_logic instances) routing_logic a

    -- a router that is made anew, `none` for an exception
    unfoldable pub new_router : String → Arguments → Option Router
    unfolding constructed
    new_router routing_logic a = elim (constructed routing_logic a) [
      | none ↦ none
      | some (cls, made) ↦ made
    ]
