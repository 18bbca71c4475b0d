-- ===== src/Discovery/Labels.antt =====
-- `add_sleep_label` and `remove_sleep_label` of the two Kubernetes discoveries of
-- src/vllm_router/service_discovery.py, over the labels of the pods or services of a namespace.
pub mod Sample
use vllm_production_stack_cu.Base.{
  String, ◌≡◌, refl, true, false, Option, none, some, [], ◌∷◌, arith, map, ◌==◌, string_eq,
  if◌then◌else◌,
}
use vllm_production_stack_cu.Base.Dict.{Dict, get, has, put, get-put}

-- What is called of the Kubernetes API for one kind of object: the labels of an object, `none`
-- where it has no labels at all, and a patch of labels, in which a null removes a label. Either is
-- `none` for an ApiException.
pub record LabelApi : Type 1 where
  pub Cluster : Type 0
  pub read : Cluster → String → Option (Option (Dict String String))
  pub patch : Cluster → String → Dict String (Option String) → Option Cluster

-- a label after a patch
abbrev pub merged : String → Dict String (Option String) → Dict String String → Option String
merged k body labels = elim (get k body) [
  | none ↦ get k labels
  | some none ↦ none
  | some (some v) ↦ some v
]

-- A patch merges the labels of the object, and touches no other.
pub record IsLabelApi (api : LabelApi) : Type 0 where
  pub patched :
      (c c' : api.Cluster) (name : String) (body : Dict String (Option String))
      → (labels : Dict String String) → api.read c name ≡ some (some labels)
      → api.patch c name body ≡ some c'
      → (labels' : Dict String String) × (api.read c' name ≡ some (some labels'))
        × ((k : String) → get k labels' ≡ merged k body labels)
  pub others :
      (c c' : api.Cluster) (name other : String) (body : Dict String (Option String))
      → (name == other) ≡ false
      → api.patch c name body ≡ some c'
      → api.read c' other ≡ api.read c other

-- An object that can be read can be patched.
abbrev pub IsWritable : LabelApi → Type 0
IsWritable api =
    (c : api.Cluster) (name : String) (body : Dict String (Option String))
    → (labels : Dict String String) → api.read c name ≡ some (some labels)
    → (c' : api.Cluster) × (api.patch c name body ≡ some c')

module _ (api : LabelApi) where
  open api use {Cluster, read, patch}

  -- an ApiException is logged
  unfoldable pub or_same : Cluster → Option Cluster → Cluster
  or_same c none = c
  or_same c (some c') = c'

  -- The patch has all labels of the pod; `none` is the AttributeError of a pod without labels.
  unfoldable pub add_pod_label : Cluster → String → Option Cluster
  unfolding or_same
  add_pod_label c pod_name = elim (read c pod_name) [
    | none ↦ some c
    | some none ↦ none
    | some (some labels) ↦
        some
          (or_same c (patch c pod_name (map (λ p. (p.0, some p.1)) (put "sleeping" "true" labels))))
  ]

  unfoldable pub add_service_label : Cluster → String → Option Cluster
  unfolding or_same
  add_service_label c service_name =
      some (or_same c (patch c service_name (("sleeping", some "true") ∷ [])))

  -- `none` is the TypeError of an object without labels.
  unfoldable pub remove_label : Cluster → String → Option Cluster
  unfolding or_same
  remove_label c name = elim (read c name) [
    | none ↦ some c
    | some none ↦ none
    | some (some labels) ↦
        if has "sleeping" labels
        then some (or_same c (patch c name (("sleeping", none) ∷ [])))
        else some c
  ]

  -- A discovery has the labels of pods or of services, or no such methods.
  pub data Labels : Type 0 where
    unlabelled : Labels
    pods services : Cluster → Labels

  -- `none` is an exception: the AttributeError of a static discovery, or the error of the client for
  -- a missing name, which is no ApiException.
  unfoldable pub add_sleep_label : Labels → Option String → Option Labels
  unfolding add_pod_label add_service_label
  add_sleep_label unlabelled name = none
  add_sleep_label (pods c) none = none
  add_sleep_label (services c) none = none
  add_sleep_label (pods c) (some name) = elim (add_pod_label c name) [
    | none ↦ none
    | some c' ↦ some (pods c')
  ]
  add_sleep_label (services c) (some name) = elim (add_service_label c name) [
    | none ↦ none
    | some c' ↦ some (services c')
  ]

  unfoldable pub remove_sleep_label : Labels → Option String → Option Labels
  unfolding remove_label
  remove_sleep_label unlabelled name = none
  remove_sleep_label (pods c) none = none
  remove_sleep_label (services c) none = none
  remove_sleep_label (pods c) (some name) = elim (remove_label c name) [
    | none ↦ none
    | some c' ↦ some (pods c')
  ]
  remove_sleep_label (services c) (some name) = elim (remove_label c name) [
    | none ↦ none
    | some c' ↦ some (services c')
  ]

  get-map-some :
      (k : String) (labels : Dict String String)
      → get k (map (λ p. (p.0, some p.1)) labels)
        ≡ elim (get k labels) [ none ↦ none | some v ↦ some (some v) ]
  unfolding get
  get-map-some k [] = refl
  get-map-some k ((j, v) ∷ labels) = ground (arith, get-map-some k labels)

  -- the labels of a pod after a good patch, and those of the others
  pub add_sleep_label-pods :
      (c : Cluster) (name : String) (labels : Dict String String)
      → IsLabelApi api
      → IsWritable api
      → read c name ≡ some (some labels)
      → (c' : Cluster) × (labels' : Dict String String) × (add_sleep_label (pods c) (some name)
          ≡ some (pods c'))
        × (read c' name ≡ some (some labels'))
        × ((k : String) → get k labels' ≡ (if "sleeping" == k then some "true" else get k labels))
        × ((other : String) → (name == other) ≡ false → read c' other ≡ read c other)
  unfolding add_sleep_label add_pod_label or_same
  add_sleep_label-pods c name labels law writable e =
      let body = map (λ p. (p.0, some p.1)) (put "sleeping" "true" labels) in
      let (c', done) = writable c name body labels e in
      let (labels', e', merge) = law.patched c c' name body labels e done in
      (
        c',
        labels',
        rw (e, add_sleep_label, add_pod_label, done, or_same) refl,
        e',
        λ k. ground (
          arith,
          merge k,
          get-map-some k (put "sleeping" "true" labels),
          get-put "sleeping" k "true" labels,
        ),
        λ other apart. law.others c c' name other body apart done,
      )

  pub remove_sleep_label-pods :
      (c : Cluster) (name : String) (labels : Dict String String)
      → IsLabelApi api
      → IsWritable api
      → read c name ≡ some (some labels)
      → has "sleeping" labels ≡ true
      → (c' : Cluster) × (labels' : Dict String String) × (remove_sleep_label (pods c) (some name)
          ≡ some (pods c'))
        × (read c' name ≡ some (some labels'))
        × ((k : String) → get k labels' ≡ (if "sleeping" == k then none else get k labels))
        × ((other : String) → (name == other) ≡ false → read c' other ≡ read c other)
  unfolding remove_sleep_label remove_label or_same get
  remove_sleep_label-pods c name labels law writable e there =
      let body : Dict String (Option String) = ("sleeping", none) ∷ [] in
      let (c', done) = writable c name body labels e in
      let (labels', e', merge) = law.patched c c' name body labels e done in
      (
        c',
        labels',
        rw (e, remove_sleep_label, remove_label, there, done, or_same) refl,
        e',
        λ k. ground (arith, merge k),
        λ other apart. law.others c c' name other body apart done,
      )
