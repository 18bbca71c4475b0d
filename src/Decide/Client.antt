-- ===== src/Decide/Client.antt =====
-- `main` of skills/jev-decide/scripts/decide.py, with the requests and the audit events it makes.
pub mod Events
pub mod Audited
pub mod Requested
mod Tests
use vllm_production_stack_cu.Base.{
  ℕ, suc, String, Bool, true, false, ◌&&◌, ◌||◌, not, Option, none, some, List, [], ◌∷◌, leb, ◌==◌,
  string_eq, if◌then◌else◌,
}
use vllm_production_stack_cu.Base.Floats.{Floats}
use vllm_production_stack_cu.Base.Json.{Value, Items, Fields, nil, item, end, field, assign}
use vllm_production_stack_cu.Decide.Retry.{
  Answer, Outcome, done, failed, os_error, escaped, assertion_error, request_json,
}
use vllm_production_stack_cu.Decide.Audit.{Hashing, Line, Access, written, refused, append_audit}
use vllm_production_stack_cu.Decide.Validate.{
  ClientError, not_numeric, not_finite, out_of_range, info_with_inputs, upstream, broken_answer,
  Result, ok, client_error, crashed, bind, SplitUrl, endpoint,
}
use vllm_production_stack_cu.Decide.Body.{Args, Entry, Inputs, given, texts, build_body}

-- what int(raw) gives of a setting
pub data Whole : Type 0 where
  no_number negative : Whole
  whole : ℕ → Whole

pub data Method : Type 0 where
  get post : Method

-- The environment of the client, and what it has from libraries: the parts of urllib, and the answers
-- of the server to a method, a url and a body; canonical_json and the digest of it; the clock, the id and the arguments of the process; the
-- texts of the errors. `timeout` and `backoff` are what float(raw) gives of the settings, `none` for a
-- ValueError; `retries` is what int(raw) gives; `le` and `float_finite` are `<=` and math.isfinite.
pub record Environment (fl : Floats) : Type 1 where
  pub hashing : Hashing
  pub io : Inputs
  pub is_finite : Value → Option Bool
  pub blank : String → Bool
  pub base_url : String
  pub urlsplit : String → Option SplitUrl
  pub urlunsplit : String → String → List ℕ → String
  pub timeout : Option fl.F
  pub retries : Whole
  pub backoff : Option fl.F
  pub le : fl.F → fl.F → Bool
  pub float_finite : fl.F → Bool
  pub answers : Method → String → Option Fields → ℕ → Answer
  pub audit_id : String
  pub argv : List String
  pub now : String
  pub message : ClientError → String
  -- the text of an error that could not be recorded
  pub also_failed : String → String
  pub log_path : String

-- the variables of `main` that an event is made of
pub record Run : Type 0 where
  pub url : Option String
  pub request_body : Option Fields
  pub response_body : Option Fields
  pub evidence : List Entry
  pub attempts : ℕ

-- How the requests of `main` end: with an answer; with an error that is caught, and the attempts it
-- carries; or with another exception.
pub data Step : Type 0 where
  finished : Run → Fields → Step
  raised : Run → ClientError → ℕ → Step
  uncaught : Step

abbrev pub start : Run
start = record {
  url = none;
  request_body = none;
  response_body = none;
  evidence = [];
  attempts = 0;
}

-- any of the inputs that --info excludes
unfoldable pub has_inputs : Args → Bool
unfolding given
has_inputs args =
    given args.request_file
    || given args.kind
    || given args.question
    || given args.state_json
    || given args.state_file
    || (elim args.evidence_file [ [] ↦ false | f ∷ fs ↦ true ])

module _ (fl : Floats) (env : Environment fl) where
  open env use {
    hashing, io, is_finite, blank, base_url, urlsplit, urlunsplit, timeout, retries, backoff, le,
    float_finite, answers,
  }
  open fl use {F, of_ℕ, div}

  unfoldable pub env_number : Option F → F → F → Result F
  env_number none minimum maximum = client_error not_numeric
  env_number (some value) minimum maximum =
      if float_finite value
      then (if le minimum value && le value maximum then ok value else client_error out_of_range)
      else client_error not_finite

  -- `env_number` with integer=True and the bounds 0 and 5
  unfoldable pub env_retries : Whole → Result ℕ
  env_retries no_number = client_error not_numeric
  env_retries negative = client_error out_of_range
  env_retries (whole n) = if leb n 5 then ok n else client_error out_of_range

  -- the number of retries and the backoff, after the timeout is checked
  unfoldable pub settings : Result (ℕ × F)
  unfolding env_number env_retries
  settings = bind (env_number timeout (div (of_ℕ 1) (of_ℕ 1000)) (of_ℕ 3600)) (λ seconds.
      bind (env_retries retries) (λ max_retries.
        bind (env_number backoff (of_ℕ 0) (of_ℕ 10)) (λ pause. ok (max_retries, pause))))

  unfoldable pub of_outcome : Run → Outcome → Step
  of_outcome run (done fields attempts) =
      finished (record run { response_body = some fields; attempts = attempts }) fields
  of_outcome run (failed e attempts) = raised run (upstream e) attempts
  of_outcome run os_error = raised run broken_answer 0
  of_outcome run escaped = uncaught
  of_outcome run assertion_error = uncaught

  -- whether the body of the request, if there is one, can be encoded
  unfoldable pub is_encodable : Option Fields → Bool
  is_encodable none = true
  is_encodable (some body) = elim (hashing.encode body) [ none ↦ false | some bytes ↦ true ]

  -- request_json(url, method, body)
  unfoldable pub send : Run → Method → String → Step
  unfolding settings of_outcome is_encodable request_json
  send run method url = elim settings [
    | client_error e ↦ raised run e 0
    | crashed ↦ uncaught
    | ok (max_retries, pause) ↦
        if is_encodable run.request_body
        then of_outcome run
            (request_json fl (answers method url run.request_body) max_retries pause).0
        else uncaught
  ]

  -- the endpoint, and the request to it
  unfoldable pub send_to : Run → Method → Bool → Step
  unfolding send endpoint
  send_to run method info = elim (endpoint urlsplit urlunsplit base_url info) [
    | client_error e ↦ raised run e 0
    | crashed ↦ uncaught
    | ok url ↦ send (record run { url = some url }) method url
  ]

  unfoldable pub decide : Args → Step
  unfolding send_to build_body
  decide args = elim (build_body io is_finite blank args) [
    | client_error e ↦ raised start e 0
    | crashed ↦ uncaught
    | ok (body, evidence) ↦
        send_to (record start { request_body = some body; evidence = evidence }) post false
  ]

  -- the requests of `main`
  unfoldable pub run_request : Args → Step
  unfolding decide send_to has_inputs
  run_request args =
      if args.info
      then (if has_inputs args then raised start info_with_inputs 0 else send_to start get true)
      else decide args
