-- ===== src/Base/Json.antt =====
-- The values of `json.loads`. A number that is a natural number is `num`, any other is `real`,
-- which keeps its literal.
use Prim.Native.Nat.{ℕ}
use Prim.Native.String.{String}
use mathlib.Core.Bool.{Bool, true, false}
use mathlib.Core.Option.{Option, none, some}
use mathlib.Core.Path.{◌≡◌, refl}
use mathlib.Core.List.{List, [], ◌∷◌}
use native.Mathlib.Omega.{arith}
use vllm_production_stack_cu.Base.Tests.{eqb, if◌then◌else◌}
use vllm_production_stack_cu.Base.Keys.{◌==◌, string_eq}

mutual
  pub data Value : Type 0 where
    null : Value
    bool : Bool → Value
    num : ℕ → Value
    real : String → Value
    str : String → Value
    arr : Items → Value
    obj : Fields → Value

  pub data Items : Type 0 where
    nil : Items
    item : Value → Items → Items

  pub data Fields : Type 0 where
    end : Fields
    field : String → Value → Fields → Fields

-- d.get(key)
unfoldable pub find : String → Fields → Option Value
find k end = none
find k (field j v fs) = if j == k then some v else find k fs

-- d[key] = v
unfoldable pub assign : String → Value → Fields → Fields
assign k v end = field k v end
assign k v (field j w fs) = if j == k then field j v fs else field j w (assign k v fs)

-- a dict display
abbrev pub object : List (String × Value) → Fields
object [] = end
object ((k, v) ∷ items) = field k v (object items)

-- d.get(key, default)
abbrev pub find_or : String → Value → Fields → Value
find_or k v fs = elim (find k fs) [ none ↦ v | some w ↦ w ]

-- v == 1, which holds of `True` too
abbrev pub is_one : Value → Bool
is_one (num n) = eqb n 1
is_one (bool b) = b
is_one _ = false

-- bool(v); a `real` is a number that is no natural one, so it is not zero
abbrev pub truthy : Value → Bool
truthy null = false
truthy (bool b) = b
truthy (num n) = elim (eqb n 0) [ true ↦ false | false ↦ true ]
truthy (real s) = true
truthy (str s) = elim (s == "") [ true ↦ false | false ↦ true ]
truthy (arr nil) = false
truthy (arr (item v is)) = true
truthy (obj end) = false
truthy (obj (field k v fs)) = true

pub find-assign :
    (k j : String) (v : Value) (fs : Fields)
    → find j (assign k v fs) ≡ (if k == j then some v else find j fs)
unfolding find assign
find-assign k j v end = refl
find-assign k j v (field i w fs) = ground (
  arith,
  string_eq.same_iff k j,
  string_eq.same_iff i k,
  string_eq.same_iff i j,
  find-assign k j v fs,
)
