-- ===== src/Decide/Audit.antt =====
-- `append_audit`: the log of events, each of which has the hash of the one before. The log is the
-- list of its lines, the newest first; the file ends with a line break.
pub mod Links
pub mod Chain
use vllm_production_stack_cu.Base.{
  String, Bool, true, false, Option, none, some, List, [], ◌∷◌, if◌then◌else◌,
}
use vllm_production_stack_cu.Base.Json.{Value, Fields, find, assign}

-- canonical_json(value).encode("utf-8"), with `none` for the UnicodeEncodeError of a text that has a
-- lone surrogate, and the hexadecimal SHA-256 of such bytes as a JSON text
pub record Hashing : Type 1 where
  pub Bytes : Type 0
  pub encode : Fields → Option Bytes
  pub digest : Bytes → Value

-- a line: blank, or with what it parses to, `none` if it is no UTF-8 or no JSON
pub data Line : Type 0 where
  blank : Line
  line : Option Value → Line

-- what the file system does: an OSError before the write; a directory that others can enter; a path
-- that is no regular file; an OSError of the write, which writes nothing; an OSError of fsync after
-- the write; or none of these
pub data Access : Type 0 where
  os_error shared_directory not_regular unwritten unsynced opened : Access

-- The event that was written; a ClientError; or another exception: of a last line that is JSON and
-- no object, or of an event that cannot be encoded.
pub data Appended : Type 0 where
  written : Fields → Appended
  refused : Appended
  crashed : Appended

abbrev pub zero_hash : Value
zero_hash = Value.str "0000000000000000000000000000000000000000000000000000000000000000"

-- the lines with text
unfoldable pub entries : List Line → List (Option Value)
entries [] = []
entries (blank ∷ lines) = entries lines
entries (line v ∷ lines) = v ∷ entries lines

-- the hash in the last line
pub data Previous : Type 0 where
  previous : Value → Previous
  malformed : Previous
  type_error : Previous

unfoldable pub hash_of : Option Value → Previous
hash_of none = malformed
hash_of (some (Value.obj fields)) = elim (find "event_hash" fields) [
  | none ↦ malformed
  | some v ↦ previous v
]
hash_of (some _) = type_error

unfoldable pub previous_hash : List (Option Value) → Previous
unfolding hash_of
previous_hash [] = previous zero_hash
previous_hash (v ∷ older) = hash_of v

module _ (h : Hashing) where
  open h use {encode, digest}

  -- the record with the hash of the event before
  abbrev pub linked : Fields → Value → Fields
  linked record' hash = assign "previous_event_hash" hash record'

  -- that with its own hash, `none` for a UnicodeEncodeError
  unfoldable pub event_of : Fields → Value → Option Fields
  event_of record' hash =
      let event = linked record' hash in
      elim (encode event) [
        | none ↦ none
        | some bytes ↦ some (assign "event_hash" (digest bytes) event)
      ]

  -- the write, for a file that takes it, and fsync
  unfoldable pub write : Access → List Line → Fields → List Line × Appended
  write opened lines event = (line (some (Value.obj event)) ∷ lines, written event)
  write unsynced lines event = (line (some (Value.obj event)) ∷ lines, refused)
  write _ lines event = (lines, refused)

  -- the event in bytes again, and its write
  unfoldable pub encode_and_write : Access → List Line → Option Fields → List Line × Appended
  unfolding write
  encode_and_write access lines none = (lines, crashed)
  encode_and_write access lines (some event) = elim (encode event) [
    | none ↦ (lines, crashed)
    | some bytes ↦ write access lines event
  ]

  unfoldable pub append_to : Access → List Line → Fields → Previous → List Line × Appended
  unfolding encode_and_write event_of
  append_to access lines record' (previous hash) =
      encode_and_write access lines (event_of record' hash)
  append_to access lines record' malformed = (lines, refused)
  append_to access lines record' type_error = (lines, crashed)

  unfoldable pub append_audit : Access → List Line → Fields → List Line × Appended
  unfolding append_to previous_hash entries
  append_audit os_error lines record' = (lines, refused)
  append_audit shared_directory lines record' = (lines, refused)
  append_audit not_regular lines record' = (lines, refused)
  append_audit access lines record' = append_to access lines record' (previous_hash (entries lines))
