-- ===== src/Base/Floats.antt =====
-- Python's `float`, which the code computes times and rates with: an interface that the models take
-- as a parameter. The laws of its order are stated apart, and hold of floats that are no NaN.
use Prim.Native.Nat.{ℕ, ◌+◌, ◌-◌, ◌*◌, ◌/◌}
use mathlib.Core.Path.{◌≡◌}
use mathlib.Core.Logic.{◌⊎◌}
use mathlib.Core.Bool.{Bool, true, false}
use native.Mathlib.Omega.{arith}
use vllm_production_stack_cu.Base.Tests.{ltb}

pub record Floats : Type 1 where
  pub F : Type 0
  pub of_ℕ : ℕ → F
  pub minus_one : F
  pub add : F → F → F
  pub sub : F → F → F
  pub mul : F → F → F
  pub div : F → F → F
  -- a < b
  pub lt : F → F → Bool
  -- bool(a): a is not zero
  pub truthy : F → Bool

pub record IsOrdered (fl : Floats) : Type 0 where
  pub irrefl : (a : fl.F) → fl.lt a a ≡ false
  pub trans : (a b c : fl.F) → fl.lt a b ≡ true → fl.lt b c ≡ true → fl.lt a c ≡ true
  pub cotrans : (a b c : fl.F) → fl.lt a c ≡ true → (fl.lt a b ≡ true) ⊎ (fl.lt b c ≡ true)

-- An instance over the natural numbers, for tests; its order obeys the laws.
abbrev pub nat_floats : Floats
nat_floats = record {
  F = ℕ;
  of_ℕ = λ n. n;
  minus_one = 0;
  add = λ a b. a + b;
  sub = λ a b. a - b;
  mul = λ a b. a * b;
  div = λ a b. a / b;
  lt = ltb;
  truthy = λ n. ltb 0 n;
}

pub nat_floats-IsOrdered : IsOrdered nat_floats
nat_floats-IsOrdered = record {
  irrefl = λ a. ground arith;
  trans = λ a b c p q. ground arith;
  cotrans = λ a b c p. ground arith;
}
