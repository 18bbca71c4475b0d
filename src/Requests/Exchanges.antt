-- ===== src/Requests/Exchanges.antt =====
-- Exchanges with an engine at small inputs, with times that are natural numbers.
use vllm_production_stack_cu.Base.{◌+◌, ◌≡◌, refl, true, false, none, some, [], ◌∷◌, string_eq}
use vllm_production_stack_cu.Base.Dict.{get_or}
use vllm_production_stack_cu.Base.Floats.{nat_floats}
use vllm_production_stack_cu.Stats.Monitor.{Monitor, new_monitor}
use vllm_production_stack_cu.Stats.Life.{Run, begin}
use vllm_production_stack_cu.Requests.Progress.{
  Exchange, process_request, completed, process_request-Run, process_request_unfinished,
}

abbrev fresh : Monitor nat_floats
fresh = new_monitor nat_floats 10

process_request-Run_example :
    Run nat_floats 10
      (process_request nat_floats fresh "a" "r1"
        (completed nat_floats 1 2 (72 ∷ []) ((3, 73 ∷ []) ∷ []) 4 5)).0
      (record { prefilling = []; decoding = []; finished = ("a", "r1") ∷ [] })
    × ((process_request nat_floats fresh "a" "r1"
          (completed nat_floats 1 2 (72 ∷ []) ((3, 73 ∷ []) ∷ []) 4 5)).1
        ≡ some (72 ∷ 73 ∷ []))
process_request-Run_example =
    process_request-Run nat_floats 10 "a" "r1" 1 2 4 5 (72 ∷ []) ((3, 73 ∷ []) ∷ []) begin

-- no connection
abbrev refused : Exchange nat_floats
refused = record { start_time = 1; is_json = true; connected = false; chunks = []; ended = none }

process_request_unfinished_example :
    ((process_request nat_floats fresh "a" "r1" refused).1 ≡ none)
    × (get_or "a" 0 (process_request nat_floats fresh "a" "r1" refused).0.in_prefill_requests
        ≡ get_or "a" 0 fresh.in_prefill_requests + 1)
    × ((process_request nat_floats fresh "a" "r1" refused).0.finished_requests
        ≡ fresh.finished_requests)
process_request_unfinished_example =
    process_request_unfinished nat_floats fresh "a" "r1" refused refl
