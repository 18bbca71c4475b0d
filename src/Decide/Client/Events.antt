-- ===== src/Decide/Client/Events.antt =====
-- The audit events of the client, and `main` of skills/jev-decide/scripts/decide.py.
use vllm_production_stack_cu.Base.{
  ℕ, String, Option, none, some, List, [], ◌∷◌, leb, ◌==◌, string_eq, if◌then◌else◌,
}
use vllm_production_stack_cu.Base.Floats.{Floats}
use vllm_production_stack_cu.Base.Json.{Value, Items, Fields, nil, item, end, field, assign, object}
use vllm_production_stack_cu.Decide.Audit.{
  Hashing, Line, Access, Appended, written, refused, crashed, append_audit,
}
use vllm_production_stack_cu.Decide.Validate.{ClientError, broken_output, audit_refused}
use vllm_production_stack_cu.Decide.Body.{Args, Entry, texts}
use vllm_production_stack_cu.Decide.Client.{
  Environment, Run, finished, raised, uncaught, run_request,
}

-- A manifest as a JSON object.
abbrev pub manifests : List Entry → Items
manifests [] = nil
manifests (e ∷ es) =
    item
      (Value.obj (
        field "role" (Value.str e.role) (
          field "path" (Value.str e.path) (
            field "size_bytes" (Value.num e.size_bytes)
              (field "sha256" (Value.str e.sha256) end)))))
      (manifests es)

abbrev pub text_or_null : Option String → Value
text_or_null none = Value.null
text_or_null (some s) = Value.str s

abbrev pub object_or_null : Option Fields → Value
object_or_null none = Value.null
object_or_null (some fields) = Value.obj fields

-- "error" if error else "success"
unfoldable pub outcome_of : Option String → Value
outcome_of none = Value.str "success"
outcome_of (some error) = if error == "" then Value.str "success" else Value.str "error"

-- what a write to the standard output or the standard error does: it may end with an OSError, or with
-- a UnicodeEncodeError for a text that the encoding of the stream does not have
pub data StdStream : Type 0 where
  writable broken unencodable : StdStream

-- What a run leaves: the log, the exit code, `none` for an exception, and what was printed, to the
-- standard output for the code 0 and else to the standard error.
pub record Exit : Type 0 where
  pub lines : List Line
  pub code : Option ℕ
  pub printed : Option Fields

abbrev pub exception : List Line → Exit
exception lines = record { lines = lines; code = none; printed = none }

-- the larger of two numbers
unfoldable pub larger : ℕ → ℕ → ℕ
larger m n = if leb m n then n else m

-- the run with the attempts of an error
abbrev pub with_attempts : Run → ℕ → Run
with_attempts run n = record run { attempts = larger run.attempts n }

module _ (h : Hashing) where
  open h use {encode, digest}

  -- `none` for a UnicodeEncodeError
  unfoldable pub sha256_json : Option Fields → Option Value
  sha256_json none = some Value.null
  sha256_json (some value) = elim (encode value) [ none ↦ none | some bytes ↦ some (digest bytes) ]

  -- the hashes of the request and of the response
  unfoldable pub body_hashes : Run → Option (Value × Value)
  unfolding sha256_json
  body_hashes run = elim (sha256_json run.request_body) [
    | none ↦ none
    | some request_hash ↦ elim (sha256_json run.response_body) [
      | none ↦ none
      | some response_hash ↦ some (request_hash, response_hash)
    ]
  ]

module _ (fl : Floats) (env : Environment fl) (args : Args) where
  open env use {hashing, audit_id, argv, now, message, also_failed, log_path}

  -- with the hashes of the request and of the response
  unfoldable pub audit_record : Value × Value → Run → Option String → Fields
  unfolding outcome_of
  audit_record (request_hash, response_hash) run error = object (
      ("schema_version", Value.num 1)
      ∷ ("client_version", Value.str "0.3.0")
      ∷ ("timestamp", Value.str now)
      ∷ ("audit_id", Value.str audit_id)
      ∷ ("operation", Value.str (if args.info then "info" else "decide"))
      ∷ ("endpoint", text_or_null run.url)
      ∷ ("argv", Value.arr (texts argv))
      ∷ ("request", object_or_null run.request_body)
      ∷ ("request_sha256", request_hash)
      ∷ ("response", object_or_null run.response_body)
      ∷ ("response_sha256", response_hash)
      ∷ ("evidence", Value.arr (manifests run.evidence))
      ∷ ("attempts", Value.num run.attempts)
      ∷ ("outcome", outcome_of error)
      ∷ ("error", text_or_null error)
      ∷ ("decision_authority", Value.str "advisory_only")
      ∷ ("final_authorization", Value.str "external_approval_or_waiver_required")
      ∷ [])

  unfoldable pub public_metadata : Value × Value → Run → Fields
  public_metadata (request_hash, response_hash) run = object (
      ("client_version", Value.str "0.3.0")
      ∷ ("audit_id", Value.str audit_id)
      ∷ ("audit_log", Value.str log_path)
      ∷ ("request_sha256", request_hash)
      ∷ ("response_sha256", response_hash)
      ∷ ("attempts", Value.num run.attempts)
      ∷ ("decision_authority", Value.str "advisory_only")
      ∷ ("final_authorization", Value.str "external_approval_or_waiver_required")
      ∷ [])

  -- what is printed for an error
  unfoldable pub error_payload : Value × Value → Run → String → Fields
  unfolding public_metadata
  error_payload hs run text =
      object (("error", Value.str text) ∷ ("_jev_client", Value.obj (public_metadata hs run)) ∷ [])

  -- the end of the handler, which is an exception of its own when the standard error fails
  unfoldable pub print_payload : StdStream → List Line → Fields → Exit
  print_payload writable lines payload = record {
    lines = lines;
    code = some 2;
    printed = some payload;
  }
  print_payload broken lines payload = exception lines
  print_payload unencodable lines payload = exception lines

  -- what is printed after the append of an error
  unfoldable pub print_error :
      StdStream → Value × Value → Run → ClientError → List Line × Appended → Exit
  unfolding error_payload print_payload
  print_error err hs run e (lines, written event) =
      print_payload err lines (error_payload hs run (message e))
  print_error err hs run e (lines, refused) =
      print_payload err lines (error_payload hs run (also_failed (message e)))
  print_error err hs run e (lines, crashed) = exception lines

  -- `except (ClientError, OSError)`
  unfoldable pub handle_error : Access → StdStream → List Line → Run → ClientError → ℕ → Exit
  unfolding body_hashes audit_record print_error append_audit
  handle_error access err lines run e attempts =
      let run' = with_attempts run attempts in
      elim (body_hashes hashing run') [
        | none ↦ exception lines
        | some hs ↦
            print_error err hs run' e
              (append_audit hashing access lines (audit_record hs run' (some (message e))))
      ]

  -- An answer on the standard output after the append of its event.
  unfoldable pub print_answer :
      Access → StdStream → StdStream → Value × Value → Run → Fields → List Line × Appended → Exit
  unfolding public_metadata handle_error
  print_answer second writable err hs run fields (lines, written event) = record {
    lines = lines;
    code = some 0;
    printed = some (assign "_jev_client" (Value.obj (public_metadata hs run)) fields);
  }
  print_answer second broken err hs run fields (lines, written event) =
      handle_error second err lines run broken_output 0
  print_answer second unencodable err hs run fields (lines, written event) = exception lines
  print_answer second out err hs run fields (lines, refused) =
      handle_error second err lines run audit_refused 0
  print_answer second out err hs run fields (lines, crashed) = exception lines

  unfoldable pub report : Access → Access → StdStream → StdStream → List Line → Run → Fields → Exit
  unfolding body_hashes audit_record append_audit print_answer
  report first second out err lines run fields = elim (body_hashes hashing run) [
    | none ↦ exception lines
    | some hs ↦
        print_answer second out err hs run fields
          (append_audit hashing first lines (audit_record hs run none))
  ]

  -- `first` and `second` are what the file system does at the first and the second append, `out` and
  -- `err` what the standard output and the standard error do.
  unfoldable pub main : Access → Access → StdStream → StdStream → List Line → Exit
  unfolding report handle_error run_request
  main first second out err lines = elim (run_request fl env args) [
    | finished run fields ↦ report first second out err lines run fields
    | raised run e attempts ↦ handle_error first err lines run e attempts
    | uncaught ↦ exception lines
  ]
