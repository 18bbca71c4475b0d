-- ===== src/Batches/Tests.antt =====
-- The batches at small inputs. The query takes the first pending row.
use vllm_production_stack_cu.Base.{
  String, ◌≡◌, refl, true, false, Option, none, some, List, [], ◌∷◌, In, inl, inr, All, arith,
  string_eq, if◌then◌else◌, Bool-cases,
}
use vllm_production_stack_cu.Batches.{
  Status, Row, is_pending, read_row, find_row, update_rows, new_row, create_batch, retrieve_batch,
  retrieve_all, can_cancel, set_cancelled,
}
use vllm_production_stack_cu.Batches.Worker.{
  Action, create, cancel_read, cancel_write, select, mark, finish, select_with, mark_with,
  cancel_read_with, cancel_write_with, take_out, finish_with, set_running, set_finished, act, run,
  new_system,
}
use vllm_production_stack_cu.Batches.Worker.Invariant.{
  RowFits, running_ids, IsConsistent, run-new-IsConsistent,
}
use vllm_production_stack_cu.Batches.Rows.{IsUnique}
use vllm_production_stack_cu.Batches.Worker.Drain.{IsQuery, turns, IsOver, run-turns-ended}
use vllm_production_stack_cu.Batches.Routes.{
  route_get_batch, route_cancel_batch, raised, route_cancel_batch_breaks,
}

first_pending : List Row → Option String
first_pending [] = none
first_pending (r ∷ table) = if is_pending r then some r.batch_id else first_pending table

first_pending_found :
    (table : List Row) (id : String)
    → first_pending table ≡ some id
    → (r : Row) × In r table × (r.batch_id ≡ id) × (is_pending r ≡ true)
unfolding first_pending
first_pending_found [] id e = cc
first_pending_found (r ∷ table) id e = elim (Bool-cases (is_pending r)) [
  | inl t ↦ (r, inl refl, ground (arith, e, t), t)
  | inr f ↦
      let (x, m, same, p) = first_pending_found table id (ground (arith, e, f)) in
      (x, inr m, same, p)
]

first_pending-none :
    (table : List Row) → first_pending table ≡ none → All (λ r. is_pending r ≡ false) table
unfolding first_pending
first_pending-none [] e = tt
first_pending-none (r ∷ table) e = (ground (arith, e), first_pending-none table (ground (arith, e)))

first_pending-IsQuery : IsQuery first_pending
first_pending-IsQuery = record {
  pending_found = first_pending_found;
  pending_none = first_pending-none;
}

-- two batches, of which the first is cancelled while the worker is at it
abbrev busy : List Action
busy =
    create "b1" 1 "f1" "/v1/chat/completions" "5s" none
    ∷ create "b2" 2 "f2" "/v1/chat/completions" "5s" none
    ∷ select
    ∷ cancel_read "b1" 3
    ∷ mark
    ∷ cancel_write 0
    ∷ finish (some "out") 4
    ∷ []

-- a batch that an earlier process was at
abbrev left_over : Row
left_over = record (new_row "b0" 0 "f0" "/v1/chat/completions" "5s" none) {
  status = Status.running;
}

left_over-fits : All RowFits (left_over ∷ [])
left_over-fits = (tt, tt)

left_over-IsUnique : IsUnique (left_over ∷ [])
unfolding find_row
left_over-IsUnique = (refl, tt)

run-new-IsConsistent_example :
    IsConsistent
      (running_ids (left_over ∷ []))
      (run first_pending (new_system (left_over ∷ [])) busy)
run-new-IsConsistent_example =
    run-new-IsConsistent first_pending (left_over ∷ []) busy left_over-IsUnique left_over-fits

run-turns-ended_example :
    All
      (IsOver (running_ids (left_over ∷ [])))
      (run first_pending
        (run first_pending (new_system (left_over ∷ [])) busy)
        (turns ((none, 6) ∷ []))).table
unfolding run act select_with mark_with cancel_read_with cancel_write_with take_out finish_with
    create_batch new_row retrieve_batch find_row read_row update_rows can_cancel set_cancelled
    set_running set_finished first_pending new_system
run-turns-ended_example =
    run-turns-ended first_pending first_pending-IsQuery (left_over ∷ []) busy ((none, 6) ∷ [])
      left_over-IsUnique left_over-fits refl (omega arith)

abbrev waiting : Row
waiting = new_row "b1" 1 "f1" "/v1/chat/completions" "5s" none

route_cancel_batch_breaks_example :
    (find_row "b1" (route_cancel_batch (waiting ∷ []) "b1" 5).0 ≡ some (set_cancelled 5 waiting))
    × ((route_cancel_batch (waiting ∷ []) "b1" 5).1 ≡ raised)
    × (route_get_batch (route_cancel_batch (waiting ∷ []) "b1" 5).0 "b1" ≡ raised)
    × (retrieve_all (route_cancel_batch (waiting ∷ []) "b1" 5).0 (set_cancelled 5 waiting ∷ [])
        ≡ none)
unfolding retrieve_batch find_row read_row can_cancel new_row
route_cancel_batch_breaks_example =
    route_cancel_batch_breaks (waiting ∷ []) "b1" 5 waiting (set_cancelled 5 waiting ∷ []) refl refl
      (inl refl)
