-- ===== src/Base/Keys.antt =====
-- Equality tests as an instance argument: Python's `==` on the keys of a dict or a set.
use Prim.Native.Nat.{ℕ}
use Prim.Native.String.{String}
use mathlib.Core.Path.{◌≡◌, refl}
use mathlib.Core.Logic.{◌↔◌}
use mathlib.Core.Bool.{Bool, true, ◌&&◌}
use native.Mathlib.Omega.{arith}
use text.Mathlib.Text.{◌==◌ as str_eq}
use text.Mathlib.TextEquality.{eq_iff}
use vllm_production_stack_cu.Base.Tests.{eqb, eqb_iff}

-- what can be the key of a dict
pub record Key {ℓ} (K : Type ℓ) : Type ℓ where
  pub same : K → K → Bool
  pub same_iff : (k k' : K) → (same k k' ≡ true) ↔ (k ≡ k')

module _ {ℓ} {K : Type ℓ} ⦃key : Key K⦄ where
  infix 50 ◌==◌
  abbrev pub ◌==◌ : K → K → Bool
  k == k' = key.same k k'

  pub eq_self : (k : K) → (k == k) ≡ true
  eq_self k = (key.same_iff k k).1 refl

-- a tuple as a key
module _ {ℓ} {K L : Type ℓ} ⦃k : Key K⦄ ⦃l : Key L⦄ where
  abbrev pub same_pair : K × L → K × L → Bool
  same_pair p q = (p.0 == q.0) && (p.1 == q.1)

  pub same_pair_iff : (p q : K × L) → (same_pair p q ≡ true) ↔ (p ≡ q)
  same_pair_iff p q = ground (arith, k.same_iff p.0 q.0, l.same_iff p.1 q.1)

instance abbrev pub pair_eq {ℓ} : {K L : Type ℓ} ⦃k : Key K⦄ ⦃l : Key L⦄ → Key (K × L)
pair_eq = record { same = same_pair; same_iff = same_pair_iff }

instance abbrev pub string_eq : Key String
string_eq = record { same = str_eq; same_iff = eq_iff }

instance abbrev pub nat_eq : Key ℕ
nat_eq = record { same = eqb; same_iff = eqb_iff }
