-- ===== src/Base/Text.antt =====
-- Python's `in` on texts, and equality of texts that are lists of code points.
use Prim.Native.String.{String, find, len}
use Prim.Native.Nat.{ℕ}
use mathlib.Core.Bool.{Bool, true, false, ◌&&◌}
use mathlib.Core.List.{List, [], ◌∷◌}
use vllm_production_stack_cu.Base.Tests.{leb, eqb}

-- t in s
unfoldable pub contains : String → String → Bool
contains s t = leb (find s t) (len s)

-- s == t
unfoldable pub same_text : List ℕ → List ℕ → Bool
same_text [] [] = true
same_text (x ∷ xs) (y ∷ ys) = eqb x y && same_text xs ys
same_text _ _ = false
