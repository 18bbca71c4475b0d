-- ===== src/Batches/Routes.antt =====
-- The HTTP routes that read and cancel batches: src/vllm_router/routers/batches_router.py.
use vllm_production_stack_cu.Base.{
  ℕ, String, ◌≡◌, refl, subst, ◌∙◌, Bool, true, Option, none, some, List, [], ◌∷◌, length, arith,
  eqb, ◌==◌, string_eq, In, inl, inr, Bool-cases, Option-cases,
}
use vllm_production_stack_cu.Batches.{
  cancelled, Row, Fetch, read_row, find_row, update_rows, retrieve_batch, retrieve_all, can_cancel,
  set_cancelled, cancel_batch, list_batches,
}

-- The answer of a route: one batch, a page, or an exception that the route does not catch.
pub data Response : Type 0 where
  batch : Row → Response
  page : List Row → Option String → Option String → Bool → Response
  raised : Response

-- `batch.to_dict()`: `cancelled` is a plain text, which has no `value`
unfoldable pub to_dict : Row → Response
to_dict r = elim r.status [ cancelled ↦ raised | _ ↦ batch r ]

-- Only a FileNotFoundError is caught.
unfoldable pub respond : Fetch → Response
unfolding to_dict
respond (Fetch.found r) = to_dict r
respond Fetch.missing = raised
respond Fetch.bad_status = raised

unfoldable pub route_get_batch : List Row → String → Response
unfolding respond retrieve_batch
route_get_batch table id = respond (retrieve_batch table id)

unfoldable pub route_cancel_batch : List Row → String → ℕ → List Row × Response
unfolding respond cancel_batch
route_cancel_batch table id now = let (table', f) = cancel_batch table id now in (table', respond f)

abbrev pub last_id : List Row → Option String
last_id [] = none
last_id (r ∷ []) = some r.batch_id
last_id (r ∷ q ∷ rows) = last_id (q ∷ rows)

abbrev pub first_id : List Row → Option String
first_id [] = none
first_id (r ∷ rows) = some r.batch_id

-- `retrieve_batch` has refused every cancelled row, so that `to_dict` returns.
unfoldable pub route_list_batches : (List Row → List Row) → List Row → ℕ → Option ℕ → Response
unfolding list_batches
route_list_batches order table limit after = elim (list_batches order table limit after) [
  | none ↦ raised
  | some rows ↦ page rows (first_id rows) (last_id rows) (eqb (length rows) limit)
]

find_row-update_rows_self :
    (id : String) (f : Row → Row) (table : List Row) (r : Row)
    → ((x : Row) → (f x).batch_id ≡ x.batch_id)
    → find_row id table ≡ some r
    → find_row id (update_rows id f table) ≡ some (f r)
unfolding find_row update_rows
find_row-update_rows_self id f [] r same e = cc
find_row-update_rows_self id f (x ∷ table) r same e = elim (Bool-cases (x.batch_id == id)) [
  | inl t ↦ ground (arith, t, e, same x)
  | inr o ↦ ground (arith, o, e, find_row-update_rows_self id f table r same)
]

found-find_row :
    (table : List Row) (id : String) (r : Row)
    → retrieve_batch table id ≡ Fetch.found r
    → find_row id table ≡ some r
unfolding retrieve_batch read_row
found-find_row table id r e = elim (Option-cases (find_row id table)) [
  | inl nothing ↦ ground (arith, e, nothing)
  | inr (x, at) ↦ ground (arith, e, at)
]

retrieve_all_fails :
    (table rows : List Row) (r : Row)
    → In r rows
    → retrieve_batch table r.batch_id ≡ Fetch.bad_status
    → retrieve_all table rows ≡ none
unfolding retrieve_all
retrieve_all_fails table [] r m e = elim m [ ]
retrieve_all_fails table (x ∷ rows) r (inl p) e =
    let e' : retrieve_batch table x.batch_id ≡ Fetch.bad_status =
      subst (λ (z : Row). retrieve_batch table z.batch_id ≡ Fetch.bad_status) p e in
    ground (arith, e')
retrieve_all_fails table (x ∷ rows) r (inr m) e =
    ground (arith, retrieve_all_fails table rows r m e)

cancelled-bad_status :
    (table : List Row) (id : String) (now : ℕ) (r : Row)
    → find_row id table ≡ some (set_cancelled now r)
    → retrieve_batch table id ≡ Fetch.bad_status
unfolding retrieve_batch read_row set_cancelled
cancelled-bad_status table id now r e = ground (arith, e)

cancel_batch-found :
    (table : List Row) (id : String) (now : ℕ) (r : Row)
    → retrieve_batch table id ≡ Fetch.found r
    → can_cancel r ≡ true
    → cancel_batch table id now
      ≡ (update_rows id (set_cancelled now) table, Fetch.found (set_cancelled now r))
unfolding cancel_batch
cancel_batch-found table id now r e live = ground (arith, e, live)

find_row_id :
    (id : String) (table : List Row) (r : Row) → find_row id table ≡ some r → r.batch_id ≡ id
unfolding find_row
find_row_id id [] r e = cc
find_row_id id (x ∷ table) r e =
    ground (arith, e, string_eq.same_iff x.batch_id id, find_row_id id table r)

keeps_id : (now : ℕ) (r : Row) → (set_cancelled now r).batch_id ≡ r.batch_id
unfolding set_cancelled
keeps_id now r = refl

raised_cancelled : (now : ℕ) (r : Row) → respond (Fetch.found (set_cancelled now r)) ≡ raised
unfolding respond to_dict set_cancelled
raised_cancelled now r = refl

pub route_cancel_batch_breaks :
    (table : List Row) (id : String) (now : ℕ) (r : Row) (rows : List Row)
    → retrieve_batch table id ≡ Fetch.found r
    → can_cancel r ≡ true
    → In (set_cancelled now r) rows
    → let table' = (route_cancel_batch table id now).0 in
      (find_row id table' ≡ some (set_cancelled now r))
      × ((route_cancel_batch table id now).1 ≡ raised)
      × (route_get_batch table' id ≡ raised)
      × (retrieve_all table' rows ≡ none)
unfolding route_cancel_batch route_get_batch
route_cancel_batch_breaks table id now r rows e live m =
    let table' = update_rows id (set_cancelled now) table in
    let at = found-find_row table id r e in
    let marked =
      find_row-update_rows_self id (set_cancelled now) table r (λ x. keeps_id now x) at in
    let unreadable = cancelled-bad_status table' id now r marked in
    let same : (set_cancelled now r).batch_id ≡ id = keeps_id now r ∙ find_row_id id table r at in
    rw (cancel_batch-found table id now r e live) (
      marked,
      raised_cancelled now r,
      rw unreadable refl,
      retrieve_all_fails table' rows (set_cancelled now r) m (rw same unreadable),
    )
