-- ===== src/Discovery/Labels/Sample.antt =====
-- An API that obeys the laws, for tests: a cluster is a function from names to labels.
use vllm_production_stack_cu.Base.{
  String, ◌≡◌, refl, ap, false, Option, none, some, [], ◌∷◌, arith, ◌==◌, string_eq, if◌then◌else◌,
  Option-cases, inl, inr,
}
use vllm_production_stack_cu.Base.Dict.{Dict, get, put, remove, get-put, get-remove}
use vllm_production_stack_cu.Discovery.Labels.{LabelApi, IsLabelApi, IsWritable, merged}

abbrev pub Objects : Type 0
Objects = String → Option (Option (Dict String String))

abbrev merge : Dict String (Option String) → Dict String String → Dict String String
merge [] labels = labels
merge ((k, none) ∷ body) labels = remove k (merge body labels)
merge ((k, some v) ∷ body) labels = put k v (merge body labels)

get-merge :
    (k : String) (body : Dict String (Option String)) (labels : Dict String String)
    → get k (merge body labels) ≡ merged k body labels
unfolding get
get-merge k [] labels = refl
get-merge k ((j, none) ∷ body) labels =
    ground (arith, get-remove j k (merge body labels), get-merge k body labels)
get-merge k ((j, some v) ∷ body) labels =
    ground (arith, get-put j k v (merge body labels), get-merge k body labels)

abbrev set_labels : Objects → String → Dict String String → Objects
set_labels c name labels other = if name == other then some (some labels) else c other

abbrev patch_labels : Objects → String → Dict String (Option String) → Option Objects
patch_labels c name body = elim (c name) [
  | none ↦ none
  | some none ↦ none
  | some (some labels) ↦ some (set_labels c name (merge body labels))
]

abbrev pub function_api : LabelApi
function_api = record { Cluster = Objects; read = λ c name. c name; patch = patch_labels }

abbrev or_else : Objects → Option Objects → Objects
or_else c none = c
or_else c (some c') = c'

patch_done :
    (c c' : Objects) (name : String) (body : Dict String (Option String))
    → patch_labels c name body ≡ some c'
    → (labels : Dict String String) × (c name ≡ some (some labels))
      × (set_labels c name (merge body labels) ≡ c')
patch_done c c' name body done = elim (Option-cases (c name)) [
  | inl e ↦ let stuck = rw (e, patch_labels) at done in cc
  | inr (none, e) ↦ let stuck = rw (e, patch_labels) at done in cc
  | inr (some labels, e) ↦ (labels, e, ap (or_else c') (rw (e, patch_labels) at done))
]

function_patched :
    (c c' : Objects) (name : String) (body : Dict String (Option String))
    → (labels : Dict String String) → c name ≡ some (some labels)
    → patch_labels c name body ≡ some c'
    → (labels' : Dict String String) × (c' name ≡ some (some labels'))
      × ((k : String) → get k labels' ≡ merged k body labels)
function_patched c c' name body labels e done =
    let (found, e', same) = patch_done c c' name body done in
    let one : found ≡ labels = cc in
    (
      merge body found,
      rw (← same, string_eq.same_iff name name) (ground (arith, string_eq.same_iff name name)),
      λ k. rw (← one) (get-merge k body found),
    )

function_others :
    (c c' : Objects) (name : String) (body : Dict String (Option String)) (other : String)
    → (name == other) ≡ false
    → patch_labels c name body ≡ some c'
    → c' other ≡ c other
function_others c c' name body other apart done =
    let (found, e', same) = patch_done c c' name body done in rw (← same) (rw apart refl)

patch_of :
    (c : Objects) (name : String) (body : Dict String (Option String)) (labels : Dict String String)
    → c name ≡ some (some labels)
    → patch_labels c name body ≡ some (set_labels c name (merge body labels))
patch_of c name body labels e = rw (e, patch_labels)

pub function_api-IsLabelApi : IsLabelApi function_api
function_api-IsLabelApi = record {
  patched = λ c c' name body labels e done. function_patched c c' name body labels e done;
  others = λ c c' name other body apart done. function_others c c' name body other apart done;
}

pub function_api-IsWritable : IsWritable function_api
function_api-IsWritable c name body labels e =
    (set_labels c name (merge body labels), patch_of c name body labels e)
