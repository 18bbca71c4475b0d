-- ===== src/Batches/Worker/Invariant.antt =====
-- What every interleaving of the tasks keeps.
use vllm_production_stack_cu.Base.{
  ℕ, String, ◌≡◌, refl, Bool, true, false, ◌&&◌, not, Option, none, some, List, [], ◌∷◌, ◌++◌,
  arith, ◌==◌, string_eq, inl, inr, All, In, if◌then◌else◌, Bool-cases, Option-cases,
}
use vllm_production_stack_cu.Base.Dict.{mem}
use vllm_production_stack_cu.Batches.{
  Status, pending, running, completed, failed, cancelled, Row, Fetch, find_row, create_batch,
  retrieve_batch, can_cancel, set_cancelled, new_row,
}
use vllm_production_stack_cu.Batches.Rows.{
  IsUnique, All-map, All-update_rows, update_rows-IsUnique, append-IsUnique, All-append_one,
}
use vllm_production_stack_cu.Batches.Worker.{
  Worker, idle, chosen, working, System, Action, create, cancel_read, cancel_write, select, mark,
  finish, set_running, set_finished, select_with, mark_with, cancel_read_with, cancel_write_with,
  take_out, finish_with, act, run, new_system,
}

-- A batch that waits has neither a time of completion nor an output file; one that has ended has
-- the time, and the file if it is completed. One that is running or cancelled may have kept either
-- from what it was before.
abbrev pub Fits : Status → Option ℕ → Option String → Type 0
Fits pending none none = Unit
Fits running t file = Unit
Fits completed (some t) (some file) = Unit
Fits failed (some t) none = Unit
Fits cancelled (some t) file = Unit
Fits _ _ _ = ⊥

abbrev pub RowFits : Row → Type 0
RowFits r = Fits r.status r.completed_at r.output_file_id

abbrev pub is_running : Row → Bool
is_running r = elim r.status [ running ↦ true | _ ↦ false ]

abbrev pub works_on : Worker → String → Bool
works_on (working id') id = id' == id
works_on _ id = false

-- the batches that a table has marked as running
abbrev pub running_ids : List Row → List String
running_ids [] = []
running_ids (r ∷ table) = if is_running r then r.batch_id ∷ running_ids table else running_ids table

-- A row that is marked as running is the one that the worker is at, or one that was left so.
abbrev pub IsOwned : List String → Worker → Row → Type 0
IsOwned left w r =
    (is_running r && not (works_on w r.batch_id) && not (mem r.batch_id left)) ≡ false

pub record IsConsistent (left : List String) (s : System) : Type 0 where
  pub unique : IsUnique s.table
  pub fits : All RowFits s.table
  pub owned : All (IsOwned left s.worker) s.table

set_finished-fits :
    (output : Option String) (now : ℕ) (r : Row) → RowFits (set_finished output now r)
unfolding set_finished
set_finished-fits none now r = tt
set_finished-fits (some file) now r = tt

module _ (left : List String) where
  mark_with-IsConsistent :
      (s : System) (w : Worker)
      → s.worker ≡ w
      → IsConsistent left s
      → IsConsistent left (mark_with s w)
  unfolding mark_with set_running
  mark_with-IsConsistent s idle e y = y
  mark_with-IsConsistent s (working id) e y = y
  mark_with-IsConsistent s (chosen id) e y = record {
    unique = update_rows-IsUnique id set_running s.table (λ x. refl) y.unique;
    fits =
        All-update_rows RowFits RowFits id set_running s.table (λ x n e p. tt) (λ x o p. p) y.fits;
    owned =
        All-update_rows (IsOwned left s.worker) (IsOwned left (working id)) id set_running s.table
          (λ x n q p. ground (arith, q, string_eq.same_iff id x.batch_id))
          (λ x o p. ground (arith, e, p)) y.owned;
  }

  cancel_write_with-IsConsistent :
      (s : System) (calls : Option ((String × ℕ) × List (String × ℕ)))
      → IsConsistent left s
      → IsConsistent left (cancel_write_with s calls)
  unfolding cancel_write_with set_cancelled
  cancel_write_with-IsConsistent s none y = y
  cancel_write_with-IsConsistent s (some ((id, now), rest)) y = record {
    unique = update_rows-IsUnique id (set_cancelled now) s.table (λ x. refl) y.unique;
    fits =
        All-update_rows RowFits RowFits id (set_cancelled now) s.table (λ x n e p. tt) (λ x o p. p)
          y.fits;
    owned =
        All-update_rows (IsOwned left s.worker) (IsOwned left s.worker) id (set_cancelled now)
          s.table (λ x n e p. refl) (λ x o p. p) y.owned;
  }

  finish_with-IsConsistent :
      (s : System) (w : Worker) (output : Option String) (now : ℕ)
      → s.worker ≡ w
      → IsConsistent left s
      → IsConsistent left (finish_with s w output now)
  unfolding finish_with
  finish_with-IsConsistent s idle output now e y = y
  finish_with-IsConsistent s (chosen id) output now e y = y
  finish_with-IsConsistent s (working id) output now e y = record {
    unique = update_rows-IsUnique id (set_finished output now) s.table (λ x. refl) y.unique;
    fits =
        All-update_rows RowFits RowFits id (set_finished output now) s.table
          (λ x n e p. set_finished-fits output now x) (λ x o p. p) y.fits;
    owned =
        All-update_rows (IsOwned left s.worker) (IsOwned left idle) id (set_finished output now)
          s.table (λ x n e p. ground (arith, Option-cases output))
          (λ x o p.
            ground
              (arith, e, p, o, string_eq.same_iff x.batch_id id, string_eq.same_iff id x.batch_id))
          y.owned;
  }

  create-IsConsistent :
      (s : System) (r : Row)
      → r.status ≡ pending
      → RowFits r
      → IsConsistent left s
      → find_row r.batch_id s.table ≡ none
      → IsConsistent left (record s { table = s.table ++ r ∷ [] })
  create-IsConsistent s r waits fit y free = record {
    unique = append-IsUnique s.table r y.unique free;
    fits = All-append_one RowFits s.table r y.fits fit;
    owned = All-append_one (IsOwned left s.worker) s.table r y.owned (ground (arith, waits));
  }

  cancel_read_with-IsConsistent :
      (s : System) (id : String) (now : ℕ) (f : Fetch)
      → IsConsistent left s
      → IsConsistent left (cancel_read_with s id now f)
  unfolding cancel_read_with
  cancel_read_with-IsConsistent s id now (Fetch.found r) y = elim (Bool-cases (can_cancel r)) [
    | inl t ↦ rw t (record { unique = y.unique; fits = y.fits; owned = y.owned })
    | inr f ↦ rw f y
  ]
  cancel_read_with-IsConsistent s id now Fetch.missing y = y
  cancel_read_with-IsConsistent s id now Fetch.bad_status y = y

  module _ (next_pending : List Row → Option String) where
    select_with-IsConsistent :
        (s : System) (w : Worker)
        → s.worker ≡ w
        → IsConsistent left s
        → IsConsistent left (select_with next_pending s w)
    unfolding select_with
    select_with-IsConsistent s idle e y = elim (Option-cases (next_pending s.table)) [
      | inl nothing ↦ rw (nothing, select_with) y
      | inr (id, next) ↦
          rw (next, select_with)
            (record {
              unique = y.unique;
              fits = y.fits;
              owned =
                  All-map (IsOwned left s.worker) (IsOwned left (chosen id)) s.table
                    (λ x p. ground (arith, e, p)) y.owned;
            })
    ]
    select_with-IsConsistent s (chosen id) e y = y
    select_with-IsConsistent s (working id) e y = y

    act-IsConsistent :
        (s : System) (a : Action) → IsConsistent left s → IsConsistent left (act next_pending s a)
    unfolding act new_row create_batch
    act-IsConsistent s (create id now file endpoint window metadata) y =
        let r = new_row id now file endpoint window metadata in
        elim (Option-cases (find_row id s.table)) [
          | inl free ↦ rw (free, act, create_batch) (create-IsConsistent s r refl tt y free)
          | inr (old, taken) ↦ rw (taken, act, create_batch) y
        ]
    act-IsConsistent s (cancel_read id now) y =
        cancel_read_with-IsConsistent s id now (retrieve_batch s.table id) y
    act-IsConsistent s (cancel_write i) y =
        cancel_write_with-IsConsistent s (take_out i s.cancelling) y
    act-IsConsistent s select y = select_with-IsConsistent s s.worker refl y
    act-IsConsistent s mark y = mark_with-IsConsistent s s.worker refl y
    act-IsConsistent s (finish output now) y = finish_with-IsConsistent s s.worker output now refl y

    pub run-IsConsistent :
        (s : System) (later : List Action)
        → IsConsistent left s
        → IsConsistent left (run next_pending s later)
    unfolding run
    run-IsConsistent s [] y = y
    run-IsConsistent s (a ∷ later) y =
        run-IsConsistent (act next_pending s a) later (act-IsConsistent s a y)

IsOwned-here : (r : Row) (table : List Row) → In r table → IsOwned (running_ids table) idle r
unfolding mem
IsOwned-here r [] m = elim m [ ]
IsOwned-here r (x ∷ table) (inl same) =
    rw same ground (arith, string_eq.same_iff x.batch_id x.batch_id)
IsOwned-here r (x ∷ table) (inr m) = ground (arith, IsOwned-here r table m)

IsOwned-left :
    (rows table : List Row)
    → ((r : Row) → In r rows → In r table)
    → All (IsOwned (running_ids table) idle) rows
IsOwned-left [] table within = tt
IsOwned-left (r ∷ rows) table within =
    (IsOwned-here r table (within r (inl refl)), IsOwned-left rows table (λ x m. within x (inr m)))

-- Whatever the query selects, and however creations, cancellations and the worker are interleaved,
-- on a table that an earlier process has left, with no identifier twice and with rows that fit: no
-- two batches share an identifier, only the batch that the worker is at and those that were left so
-- are marked as running, a batch that waits has neither a time of completion nor an output file, and
-- one that has ended has the time, with the file if it is completed. So it is on an empty table, where
-- no batch was left so.
pub run-new-IsConsistent :
    (next_pending : List Row → Option String) (table : List Row) (actions : List Action)
    → IsUnique table
    → All RowFits table
    → IsConsistent (running_ids table) (run next_pending (new_system table) actions)
unfolding new_system
run-new-IsConsistent next_pending table actions unique fits =
    run-IsConsistent (running_ids table) next_pending (new_system table) actions
      (record { unique = unique; fits = fits; owned = IsOwned-left table table (λ r m. m) })
