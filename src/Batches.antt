-- ===== src/Batches.antt =====
-- The batch service: `LocalBatchProcessor` of
-- src/vllm_router/services/batch_service/local_processor.py over the table of its SQLite database,
-- and `BatchStatus` and `BatchInfo` of src/vllm_router/services/batch_service/batch.py.
pub mod Rows
pub mod Worker
pub mod Routes
mod Tests
use vllm_production_stack_cu.Base.{
  ℕ, String, Bool, true, false, Option, none, some, List, [], ◌∷◌, ◌++◌, map, take, filter, ltb,
  ◌==◌, string_eq, if◌then◌else◌,
}
use vllm_production_stack_cu.Base.Json.{Fields, end}

-- The text of the column `status`. `BatchStatus` has the first four; `cancel_batch` writes the
-- fifth.
pub data Status : Type 0 where
  pending running completed failed cancelled : Status

-- A row of `batch_queue`, which is also what `BatchInfo` says of a batch; the other fields of
-- `BatchInfo` keep their defaults.
pub record Row : Type 0 where
  pub batch_id : String
  pub status : Status
  pub input_file_id : String
  pub created_at : ℕ
  pub endpoint : String
  pub completion_window : String
  pub output_file_id : Option String
  pub completed_at : Option ℕ
  pub metadata : Fields

-- what a call that reads a batch ends in: the batch, or a ValueError, for an identifier that is not
-- there or for a status that `BatchStatus` does not have
pub data Fetch : Type 0 where
  found : Row → Fetch
  missing : Fetch
  bad_status : Fetch

abbrev pub is_pending : Row → Bool
is_pending r = elim r.status [ pending ↦ true | _ ↦ false ]

-- `BatchStatus(status)` for a row that is there
unfoldable pub read_row : Row → Fetch
read_row r = elim r.status [ cancelled ↦ bad_status | _ ↦ found r ]

-- SELECT ... WHERE batch_id = ?
unfoldable pub find_row : String → List Row → Option Row
find_row id [] = none
find_row id (r ∷ table) = if r.batch_id == id then some r else find_row id table

-- UPDATE batch_queue SET ... WHERE batch_id = ?
unfoldable pub update_rows : String → (Row → Row) → List Row → List Row
update_rows id f [] = []
update_rows id f (r ∷ table) = (if r.batch_id == id then f r else r) ∷ update_rows id f table

unfoldable pub new_row : String → ℕ → String → String → String → Option Fields → Row
new_row batch_id now input_file_id endpoint completion_window metadata = record {
  batch_id = batch_id;
  status = pending;
  input_file_id = input_file_id;
  created_at = now;
  endpoint = endpoint;
  completion_window = completion_window;
  output_file_id = none;
  completed_at = none;
  metadata = elim metadata [ none ↦ end | some m ↦ m ];
}

-- The table with the new row, `none` for the IntegrityError of an identifier that is taken.
unfoldable pub create_batch : List Row → Row → Option (List Row)
unfolding find_row
create_batch table r = elim (find_row r.batch_id table) [
  | none ↦ some (table ++ r ∷ [])
  | some old ↦ none
]

unfoldable pub retrieve_batch : List Row → String → Fetch
unfolding find_row read_row
retrieve_batch table id = elim (find_row id table) [ none ↦ missing | some r ↦ read_row r ]

-- [await self.retrieve_batch(row[0]) for row in rows], `none` for a ValueError
unfoldable pub retrieve_all : List Row → List Row → Option (List Row)
unfolding retrieve_batch
retrieve_all table [] = some []
retrieve_all table (r ∷ rows) =
    let rest = retrieve_all table rows in
    elim (retrieve_batch table r.batch_id) [
      | found b ↦ elim rest [ none ↦ none | some bs ↦ some (b ∷ bs) ]
      | _ ↦ none
    ]

-- WHERE created_at > ?, if there is such a time
unfoldable pub created_after : Option ℕ → Row → Bool
created_after none r = true
created_after (some t) r = ltb t r.created_at

-- `order` is ORDER BY created_at DESC.
unfoldable pub list_batches : (List Row → List Row) → List Row → ℕ → Option ℕ → Option (List Row)
unfolding retrieve_all created_after
list_batches order table limit after =
    retrieve_all table (take limit (order (filter (created_after after) table)))

-- the statuses that `cancel_batch` leaves alone
unfoldable pub can_cancel : Row → Bool
can_cancel r = elim r.status [ completed ↦ false | failed ↦ false | _ ↦ true ]

unfoldable pub set_cancelled : ℕ → Row → Row
set_cancelled now r = record r { status = cancelled; completed_at = some now }

-- The table and the batch that is given back, with the row as it was read.
unfoldable pub cancel_batch : List Row → String → ℕ → List Row × Fetch
unfolding retrieve_batch can_cancel set_cancelled
cancel_batch table id now = elim (retrieve_batch table id) [
  | found r ↦
      if can_cancel r
      then (update_rows id (set_cancelled now) table, found (set_cancelled now r))
      else (table, found r)
  | missing ↦ (table, missing)
  | bad_status ↦ (table, bad_status)
]
