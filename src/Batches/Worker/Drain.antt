-- ===== src/Batches/Worker/Drain.antt =====
-- The worker left to itself empties the queue.
use vllm_production_stack_cu.Base.{
  ℕ, ◌+◌, ◌≤◌, ◌<◌, String, ◌≡◌, refl, sym, subst, ap, Bool, true, false, Option, none, some, List,
  [], ◌∷◌, arith, length, string_eq, if◌then◌else◌, In, inl, inr, ◌⊎◌, All, Option-cases,
}
use vllm_production_stack_cu.Base.Dict.{mem}
use vllm_production_stack_cu.Batches.Rows.{IsUnique}
use vllm_production_stack_cu.Batches.{
  Status, pending, running, completed, failed, cancelled, Row, is_pending, update_rows,
}
use vllm_production_stack_cu.Batches.Worker.{
  idle, System, Action, select, mark, finish, set_running, set_finished, select_with, mark_with,
  finish_with, act, run, new_system,
}
use vllm_production_stack_cu.Batches.Worker.Invariant.{
  RowFits, IsOwned, running_ids, run-IsConsistent, run-new-IsConsistent,
}

-- what the query of the oldest pending row gives
pub record IsQuery (next_pending : List Row → Option String) : Type 0 where
  pub pending_found :
      (table : List Row) (id : String)
      → next_pending table ≡ some id
      → (r : Row) × In r table × (r.batch_id ≡ id) × (is_pending r ≡ true)
  pub pending_none :
      (table : List Row) → next_pending table ≡ none → All (λ r. is_pending r ≡ false) table

abbrev pub pending_count : List Row → ℕ
pending_count [] = 0
pending_count (r ∷ table) = (if is_pending r then 1 else 0) + pending_count table

pending_count_zero :
    (table : List Row) → All (λ r. is_pending r ≡ false) table → pending_count table ≡ 0
pending_count_zero [] y = refl
pending_count_zero (r ∷ table) (p, y) = ground (arith, p, pending_count_zero table y)

pending_count-running :
    (id : String) (table : List Row)
    → pending_count (update_rows id set_running table) ≤ pending_count table
unfolding update_rows set_running
pending_count-running id [] = omega arith
pending_count-running id (r ∷ table) = ground (arith, pending_count-running id table)

pending_count-finished :
    (id : String) (output : Option String) (now : ℕ) (table : List Row)
    → pending_count (update_rows id (set_finished output now) table) ≤ pending_count table
unfolding update_rows set_finished
pending_count-finished id output now [] = omega arith
pending_count-finished id output now (r ∷ table) =
    ground (arith, Option-cases output, pending_count-finished id output now table)

pending_count-marked :
    (id : String) (table : List Row) (r : Row)
    → In r table
    → r.batch_id ≡ id
    → is_pending r ≡ true
    → pending_count (update_rows id set_running table) < pending_count table
unfolding update_rows set_running
pending_count-marked id [] r m e p = elim m [ ]
pending_count-marked id (x ∷ table) r (inl q) e p = ground (
  arith,
  ap is_pending q,
  ap (λ (z : Row). z.batch_id) q,
  string_eq.same_iff x.batch_id id,
  pending_count-running id table,
)
pending_count-marked id (x ∷ table) r (inr m) e p =
    ground (arith, pending_count-marked id table r m e p)

-- a turn of the worker's loop for each output (none for a failure) with the time of its end
unfoldable pub turns : List (Option String × ℕ) → List Action
turns [] = []
turns ((output, now) ∷ rest) = select ∷ mark ∷ finish output now ∷ turns rest

abbrev pub has_ended : Row → Bool
has_ended r = elim r.status [ pending ↦ false | running ↦ false | _ ↦ true ]

-- A batch has ended, or it was marked as running before and still is.
abbrev pub IsOver : List String → Row → Type 0
IsOver left r = (has_ended r ≡ true) ⊎ ((r.status ≡ running) × (mem r.batch_id left ≡ true))

over : (left : List String) (r : Row) → is_pending r ≡ false → IsOwned left idle r → IsOver left r
over left r waits p = row-over r.status refl
  where
    row-over : (s : Status) → r.status ≡ s → IsOver left r
    row-over pending e = ground (arith, e, waits)
    row-over running e = inr (e, ground (arith, e, p))
    row-over completed e = inl (rw e refl)
    row-over failed e = inl (rw e refl)
    row-over cancelled e = inl (rw e refl)

IsOver-All :
    (left : List String) (table : List Row)
    → pending_count table ≡ 0
    → All (IsOwned left idle) table
    → All (IsOver left) table
IsOver-All left [] e y = tt
IsOver-All left (r ∷ table) e (p, y) =
    (over left r (ground (arith, e)) p, IsOver-All left table (ground (arith, e)) y)

module _ (next_pending : List Row → Option String) (query : IsQuery next_pending) where
  -- one turn from a free worker
  abbrev turn : System → Option String → ℕ → System
  turn s output now =
      act next_pending (act next_pending (act next_pending s select) mark) (finish output now)

  turn-idle :
      (s : System) (output : Option String) (now : ℕ)
      → s.worker ≡ idle
      → next_pending s.table ≡ none
      → turn s output now ≡ s
  unfolding act select_with mark_with finish_with
  turn-idle s output now free nothing = ground (arith, free, nothing)

  turn-works :
      (s : System) (output : Option String) (now : ℕ) (id : String)
      → s.worker ≡ idle
      → next_pending s.table ≡ some id
      → (turn s output now ≡ record s {
        table = update_rows id (set_finished output now) (update_rows id set_running s.table);
        worker = idle;
      })
  unfolding act select_with mark_with finish_with
  turn-works s output now id free next = ground (arith, free, next)

  abbrev Drained : List (Option String × ℕ) → System → Type 0
  Drained outputs s =
      (pending_count (run next_pending s (turns outputs)).table ≡ 0)
      × ((run next_pending s (turns outputs)).worker ≡ idle)

  turns-Drained :
      (s : System) (outputs : List (Option String × ℕ))
      → s.worker ≡ idle
      → pending_count s.table ≤ length outputs
      → Drained outputs s
  unfolding run turns
  turns-Drained s [] free few = (omega arith, free)
  turns-Drained s ((output, now) ∷ rest) free few = elim (Option-cases (next_pending s.table)) [
    | inl nothing ↦ subst (Drained rest) (sym (turn-idle s output now free nothing)) (
        turns-Drained s rest free
          (omega (arith, pending_count_zero s.table (query.pending_none s.table nothing))))
    | inr (id, next) ↦
        let (r, m, same, waits) = query.pending_found s.table id next in
        subst (Drained rest) (sym (turn-works s output now id free next)) (
          turns-Drained
            (record s {
              table = update_rows id (set_finished output now) (update_rows id set_running s.table);
              worker = idle;
            })
            rest refl
            (omega (
              arith,
              pending_count-marked id s.table r m same waits,
              pending_count-finished id output now (update_rows id set_running s.table),
            )))
  ]

  pub run-turns-ended :
      (table : List Row) (actions : List Action) (outputs : List (Option String × ℕ))
      → IsUnique table
      → All RowFits table
      → (run next_pending (new_system table) actions).worker ≡ idle
      → pending_count (run next_pending (new_system table) actions).table ≤ length outputs
      → All
          (IsOver (running_ids table))
          (run next_pending (run next_pending (new_system table) actions) (turns outputs)).table
  run-turns-ended table actions outputs unique fits free few =
      let left = running_ids table in
      let s = run next_pending (new_system table) actions in
      let (none_left, free') = turns-Drained s outputs free few in
      let y =
        run-IsConsistent left next_pending s (turns outputs)
          (run-new-IsConsistent next_pending table actions unique fits) in
      IsOver-All left (run next_pending s (turns outputs)).table none_left
        (subst (λ w. All (IsOwned left w) (run next_pending s (turns outputs)).table) free' y.owned)
