-- ===== src/Batches/Worker.antt =====
-- `process_batches` and the calls that come between its steps: each step of the system is what one
-- task does between two awaits.
pub mod Invariant
pub mod Drain
use vllm_production_stack_cu.Base.{
  ℕ, zero, suc, ◌+◌, ◌≤◌, ◌<◌, String, ◌≡◌, refl, sym, ◌∙◌, ap, Bool, true, false, Option, none,
  some, List, [], ◌∷◌, ◌++◌, arith, ◌==◌, string_eq, if◌then◌else◌, In, inl, inr, All, Bool-cases,
  Option-cases, eq_self,
}
use vllm_production_stack_cu.Batches.{
  Status, pending, running, completed, failed, cancelled, Row, Fetch, is_pending, find_row,
  update_rows, create_batch, retrieve_batch, can_cancel, set_cancelled, new_row,
}
use vllm_production_stack_cu.Base.Json.{Fields}

-- what the one background task is at: waiting, about to mark the batch that it has selected, or
-- working on a batch
pub data Worker : Type 0 where
  idle : Worker
  chosen : String → Worker
  working : String → Worker

-- The database, the background task, and the calls of `cancel_batch` that have read the status and
-- not yet written.
pub record System : Type 0 where
  pub table : List Row
  pub worker : Worker
  pub cancelling : List (String × ℕ)

pub data Action : Type 0 where
  -- create_batch
  create : String → ℕ → String → String → String → Option Fields → Action
  -- cancel_batch up to the UPDATE, at a time, and the UPDATE of one such call, whichever comes first
  cancel_read : String → ℕ → Action
  cancel_write : ℕ → Action
  -- process_batches: the SELECT, the UPDATE that marks the batch, and the last UPDATE, with the
  -- output file of a batch that was processed and the time
  select : Action
  mark : Action
  finish : Option String → ℕ → Action

unfoldable pub set_running : Row → Row
set_running r = record r { status = running }

-- UPDATE batch_queue SET status = ?, completed_at = ?, output_file_id = ?
unfoldable pub set_finished : Option String → ℕ → Row → Row
set_finished output now r = record r {
  status = elim output [ none ↦ failed | some file ↦ completed ];
  completed_at = some now;
  output_file_id = output;
}

unfoldable pub mark_with : System → Worker → System
unfolding update_rows set_running
mark_with s (chosen id) = record s {
  table = update_rows id set_running s.table;
  worker = working id;
}
mark_with s _ = s

unfoldable pub cancel_read_with : System → String → ℕ → Fetch → System
unfolding can_cancel
cancel_read_with s id now (Fetch.found r) =
    if can_cancel r then record s { cancelling = s.cancelling ++ (id, now) ∷ [] } else s
cancel_read_with s id now Fetch.missing = s
cancel_read_with s id now Fetch.bad_status = s

-- the call at a place, and the others
unfoldable pub take_out : ℕ → List (String × ℕ) → Option ((String × ℕ) × List (String × ℕ))
take_out i [] = none
take_out zero (call ∷ calls) = some (call, calls)
take_out (suc i) (call ∷ calls) = elim (take_out i calls) [
  | none ↦ none
  | some p ↦ some (p.0, call ∷ p.1)
]

unfoldable pub cancel_write_with : System → Option ((String × ℕ) × List (String × ℕ)) → System
unfolding update_rows set_cancelled
cancel_write_with s none = s
cancel_write_with s (some p) = record s {
  table = update_rows p.0.0 (set_cancelled p.0.1) s.table;
  cancelling = p.1;
}

unfoldable pub finish_with : System → Worker → Option String → ℕ → System
unfolding update_rows set_finished
finish_with s (working id) output now = record s {
  table = update_rows id (set_finished output now) s.table;
  worker = idle;
}
finish_with s _ output now = s

-- `next_pending` is the SELECT of the oldest pending row.
module _ (next_pending : List Row → Option String) where
  unfoldable pub select_with : System → Worker → System
  select_with s idle = elim (next_pending s.table) [
    | none ↦ s
    | some id ↦ record s { worker = chosen id }
  ]
  select_with s _ = s

  unfoldable pub act : System → Action → System
  unfolding select_with mark_with cancel_read_with cancel_write_with take_out finish_with
      create_batch retrieve_batch new_row
  act s (create id now file endpoint window metadata) =
      elim (create_batch s.table (new_row id now file endpoint window metadata)) [
        | none ↦ s
        | some table ↦ record s { table = table }
      ]
  act s (cancel_read id now) = cancel_read_with s id now (retrieve_batch s.table id)
  act s (cancel_write i) = cancel_write_with s (take_out i s.cancelling)
  act s select = select_with s s.worker
  act s mark = mark_with s s.worker
  act s (finish output now) = finish_with s s.worker output now

  unfoldable pub run : System → List Action → System
  unfolding act
  run s [] = s
  run s (a ∷ later) = run (act s a) later

-- The processor starts on the table that an earlier process has left in the file.
unfoldable pub new_system : List Row → System
new_system table = record { table = table; worker = idle; cancelling = [] }
