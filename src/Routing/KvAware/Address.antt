-- ===== src/Routing/KvAware/Address.antt =====
-- The address that `KvawareRouter.route_request` of src/vllm_router/routers/routing_logic.py takes
-- out of an endpoint's url.
use Prim.Native.Nat.{◌+◌}
use Prim.Native.String.{String, [], ◌∷◌, ◌++◌, find, len, slice}
use Prim.Native.Char.{code}
use mathlib.Core.Path.{◌≡◌, refl}
use mathlib.Core.Option.{Option, none, some}
use vllm_production_stack_cu.Base.Text.{contains}
use vllm_production_stack_cu.Base.{eqb, if◌then◌else◌}

-- s.split(':')[-1]
unfoldable pub last_part : String → String
unfolding contains
last_part [] = []
last_part (c ∷ s) =
    let rest = last_part s in
    if contains s ":" then rest else (if eqb (code c) 58 then s else c ∷ s)

-- s.split(t)[0]
unfoldable pub first_part : String → String → String
first_part s t = slice s 0 (find s t)

-- `none` is the IndexError of a url without "//".
unfoldable pub query_ip : String → Option String
unfolding last_part first_part contains
query_ip url =
    let head = first_part url (":" ++ last_part url) in
    if contains head "//"
    then some (first_part (slice head (find head "//" + 2) (len head)) "//")
    else none

query_ip_run : query_ip "http://10.0.0.1:8000" ≡ some "10.0.0.1"
unfolding query_ip last_part first_part contains
query_ip_run = refl
