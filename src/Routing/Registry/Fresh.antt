-- ===== src/Routing/Registry/Fresh.antt =====
-- Which router is registered after a reconfiguration.
use vllm_production_stack_cu.Base.{
  ℕ, String, ◌≡◌, refl, sym, ap, subst, ◌∙◌, Bool, true, Option, none, some, List, [], ◌∷◌, All,
  arith, ◌==◌, string_eq, if◌then◌else◌, Option-cases, Bool-cases, inl, inr,
}
use vllm_production_stack_cu.Base.Dict.{get, has, put, remove, get-put, get-remove, mem}
use vllm_production_stack_cu.Base.Floats.{Floats}
use vllm_production_stack_cu.Routing.Ring.{HashRing}
use vllm_production_stack_cu.Routing.KvAware.{Services}
use vllm_production_stack_cu.Routing.Registry.{
  Arguments, classes, Router, Registry, singleton, constructed, initialize_routing_logic,
  first_of_classes, get_routing_logic, remove_classes, cleanup_routing_logic,
  reconfigure_routing_logic, new_router,
}

module _ (fl : Floats) (h : HashRing) (s : Services) where
  module _ (controller : Bool) (chunk_size : ℕ) where
    get-remove_class :
        (k cls : String) (instances : Registry fl h s)
        → get k (if has cls instances then remove cls instances else instances)
          ≡ (if cls == k then none else get k instances)
    get-remove_class k cls instances =
        ground (arith, get-remove cls k instances, string_eq.same_iff cls k)

    get-remove_classes :
        (k : String) (names : List String) (instances : Registry fl h s)
        → get k (remove_classes fl h s controller chunk_size names instances)
          ≡ (if mem k names then none else get k instances)
    unfolding remove_classes mem
    get-remove_classes k [] instances = refl
    get-remove_classes k (cls ∷ rest) instances = ground (
      arith,
      get-remove_classes k rest (if has cls instances then remove cls instances else instances),
      get-remove_class k cls instances,
    )

    -- the registry without any of the classes
    abbrev AllAbsent : Registry fl h s → List String → Type 0
    AllAbsent instances names = All (λ k. get k instances ≡ none) names

    cleanup-AllAbsent :
        (instances : Registry fl h s)
        → AllAbsent (cleanup_routing_logic fl h s controller chunk_size instances) classes
    unfolding cleanup_routing_logic mem
    cleanup-AllAbsent instances =
        let gone = λ (k : String). get-remove_classes k classes instances in
        (
          gone "SessionRouter",
          (
            gone "RoundRobinRouter",
            (
              gone "KvawareRouter",
              (gone "PrefixAwareRouter", (gone "DisaggregatedPrefillRouter", tt)),
            ),
          ),
        )

    first_of_classes-none :
        (names : List String) (instances : Registry fl h s)
        → AllAbsent instances names
        → first_of_classes fl h s controller chunk_size instances names ≡ none
    unfolding first_of_classes
    first_of_classes-none [] instances a = refl
    first_of_classes-none (k ∷ names) instances (e, a) =
        rw (e, first_of_classes) (first_of_classes-none names instances a)

    first_of_classes-put :
        (cls : String) (r : Router fl h s) (names : List String) (instances : Registry fl h s)
        → AllAbsent instances names
        → mem cls names ≡ true
        → first_of_classes fl h s controller chunk_size (put cls r instances) names ≡ some r
    unfolding first_of_classes mem
    first_of_classes-put cls r [] instances a m = cc
    first_of_classes-put cls r (k ∷ names) instances (e, a) m = ground (
      arith,
      get-put cls k r instances,
      string_eq.same_iff cls k,
      string_eq.same_iff k cls,
      first_of_classes-put cls r names instances a,
      e,
      m,
    )

    mem-absent :
        (cls : String) (names : List String) (instances : Registry fl h s)
        → AllAbsent instances names
        → mem cls names ≡ true
        → get cls instances ≡ none
    unfolding mem
    mem-absent cls [] instances a m = cc
    mem-absent cls (k ∷ names) instances (e, a) m = elim (Bool-cases (k == cls)) [
      | inl same ↦ ap (λ j. get j instances) (sym ((string_eq.same_iff k cls).0 same)) ∙ e
      | inr other ↦ mem-absent cls names instances a (ground (arith, other, m))
    ]

    abbrev class_in : Option (String × Option (Router fl h s)) → String
    class_in none = ""
    class_in (some (cls, made)) = cls

    class-known :
        (name cls : String) (made made' : Option (Router fl h s))
        → mem name classes ≡ true
        → ◌≡◌ {A = Option (String × Option (Router fl h s))} (some (name, made)) (some (cls, made'))
        → mem cls classes ≡ true
    class-known name cls made made' m e = subst (λ k. mem k classes ≡ true) (ap class_in e) m

    constructed-known :
        (routing_logic : String) (a : Arguments) (cls : String) (made : Option (Router fl h s))
        → constructed fl h s controller chunk_size routing_logic a ≡ some (cls, made)
        → mem cls classes ≡ true
    unfolding constructed mem
    constructed-known routing_logic a cls made e =
        elim (Bool-cases (routing_logic == "roundrobin")) [
          | inl t1 ↦ class-known "RoundRobinRouter" cls _ made refl (rw (constructed, t1) at e)
          | inr f1 ↦ elim (Bool-cases (routing_logic == "session")) [
            | inl t2 ↦ class-known "SessionRouter" cls _ made refl (rw (constructed, f1, t2) at e)
            | inr f2 ↦ elim (Bool-cases (routing_logic == "kvaware")) [
              | inl t3 ↦
                  class-known "KvawareRouter" cls _ made refl (rw (constructed, f1, f2, t3) at e)
              | inr f3 ↦ elim (Bool-cases (routing_logic == "prefixaware")) [
                | inl t4 ↦
                    class-known "PrefixAwareRouter" cls _ made refl
                      (rw (constructed, f1, f2, f3, t4) at e)
                | inr f4 ↦ elim (Bool-cases (routing_logic == "disaggregated_prefill")) [
                  | inl t5 ↦
                      class-known "DisaggregatedPrefillRouter" cls _ made refl
                        (rw (constructed, f1, f2, f3, f4, t5) at e)
                  | inr f5 ↦
                      let none_made : ◌≡◌ {A = Option (String × Option (Router fl h s))} none
                          (some (cls, made)) =
                        rw (constructed, f1, f2, f3, f4, f5) at e in
                      cc
                ]
              ]
            ]
          ]
        ]

    get-singleton :
        (cls : String) (made : Option (Router fl h s)) (instances : Registry fl h s)
        → AllAbsent instances classes
        → mem cls classes ≡ true
        → (get_routing_logic fl h s controller chunk_size (singleton fl h s cls made instances).0
            ≡ made)
          × ((singleton fl h s cls made instances).1 ≡ made)
    unfolding singleton get_routing_logic
    get-singleton cls none instances a m =
        let absent = mem-absent cls classes instances a m in
        rw (singleton, absent) (first_of_classes-none classes instances a, refl)
    get-singleton cls (some r) instances a m =
        let absent = mem-absent cls classes instances a m in
        rw (singleton, absent) (first_of_classes-put cls r classes instances a m, refl)

    get_classes-none :
        (instances : Registry fl h s)
        → AllAbsent instances classes
        → get_routing_logic fl h s controller chunk_size instances ≡ none
    unfolding get_routing_logic
    get_classes-none instances absent = first_of_classes-none classes instances absent

    initialize-IsNew :
        (instances : Registry fl h s) (routing_logic : String) (a : Arguments)
        → AllAbsent instances classes
        → (get_routing_logic fl h s controller chunk_size
              (initialize_routing_logic fl h s controller chunk_size instances routing_logic a).0
            ≡ new_router fl h s controller chunk_size routing_logic a)
          × ((initialize_routing_logic fl h s controller chunk_size instances routing_logic a).1
              ≡ new_router fl h s controller chunk_size routing_logic a)
    unfolding initialize_routing_logic new_router
    initialize-IsNew instances routing_logic a absent =
        elim (Option-cases (constructed fl h s controller chunk_size routing_logic a)) [
          | inl e ↦
              rw (e, initialize_routing_logic, new_router) (get_classes-none instances absent, refl)
          | inr ((cls, made), e) ↦
              rw (e, initialize_routing_logic, new_router)
                (get-singleton cls made instances absent
                  (constructed-known routing_logic a cls made e))
        ]

    -- Whatever was registered before: after a reconfiguration the registry answers with the router
    -- that was made for the given logic and arguments, which is also what the call returns; or, if
    -- none could be made, both raise, and no router is registered any more.
    pub reconfigure_routing_logic-IsNew :
        (instances : Registry fl h s) (routing_logic : String) (a : Arguments)
        → (get_routing_logic fl h s controller chunk_size
              (reconfigure_routing_logic fl h s controller chunk_size instances routing_logic a).0
            ≡ new_router fl h s controller chunk_size routing_logic a)
          × ((reconfigure_routing_logic fl h s controller chunk_size instances routing_logic a).1
              ≡ new_router fl h s controller chunk_size routing_logic a)
    unfolding reconfigure_routing_logic
    reconfigure_routing_logic-IsNew instances routing_logic a =
        initialize-IsNew (cleanup_routing_logic fl h s controller chunk_size instances)
          routing_logic a (cleanup-AllAbsent instances)
