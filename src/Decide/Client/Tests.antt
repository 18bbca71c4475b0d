-- ===== src/Decide/Client/Tests.antt =====
-- The client at small inputs. The digest of an object is the object itself.
use vllm_production_stack_cu.Base.{
  ℕ, zero, suc, ◌≡◌, refl, true, false, none, some, [], ◌∷◌, ◌==◌, string_eq, leb, nat_eq,
}
use vllm_production_stack_cu.Base.Dict.{mem}
use vllm_production_stack_cu.Base.Floats.{nat_floats}
use vllm_production_stack_cu.Base.Json.{Value, Fields, end, find, assign}
use vllm_production_stack_cu.Decide.Retry.{
  Answer, http_error, response, request_json, request_loop, is_retryable, conclude,
}
use vllm_production_stack_cu.Decide.Audit.{
  Hashing, opened, zero_hash, entries, previous_hash, event_of, write, encode_and_write, append_to,
  append_audit,
}
use vllm_production_stack_cu.Decide.Audit.Links.{AreLinked}
use vllm_production_stack_cu.Decide.Validate.{
  validate, validate_fields, all_known, known_kind, good_question, check_options, check_threshold,
  endpoint, endpoint_path, base_path, v1_suffix,
}
use vllm_production_stack_cu.Decide.Body.{
  Args, contents, Inputs, given, is_given, assign_text, assign_texts, paths, read_file,
  add_evidence, with_state, body_with, body_of_args, body_of, build_body,
}
use vllm_production_stack_cu.Decide.Client.{
  Environment, whole, env_number, env_retries, settings, of_outcome, is_encodable, send, send_to,
  decide, run_request,
}
use vllm_production_stack_cu.Decide.Client.Events.{
  writable, sha256_json, body_hashes, handle_error, print_answer, report, main,
}
use vllm_production_stack_cu.Decide.Client.Audited.{IsAudited, main-IsAudited}
use vllm_production_stack_cu.Decide.Client.Requested.{
  Finishes, IsRequested, run_request-IsRequested,
}

abbrev plain : Hashing
plain = record { Bytes = Fields; encode = λ fs. some fs; digest = λ fs. Value.obj fs }

-- every path leads to the same file
abbrev inputs : Inputs
inputs = record {
  read_bytes =
      λ p. contents (record { path = "/notes"; size_bytes = 4; sha256 = "ab"; text = some "null" });
  stdin = none;
  loads = λ t. some Value.null;
}

-- a server that is overloaded once
abbrev answers : ℕ → Answer
answers zero = http_error 503
answers (suc n) = response (some (Value.obj end))

abbrev environment : Environment nat_floats
environment = record {
  hashing = plain;
  io = inputs;
  is_finite = λ v. some true;
  blank = λ s. s == "";
  base_url = "http://jev/v1";
  urlsplit = λ s. some (record {
    scheme = "http";
    netloc = "jev";
    path = v1_suffix;
    has_user = false;
    has_query_or_fragment = false;
  });
  urlunsplit = λ scheme netloc path. "http://jev/v1/decide";
  timeout = some 60;
  retries = whole 2;
  backoff = some 1;
  le = leb;
  float_finite = λ n. true;
  answers = λ method url body. answers;
  audit_id = "id";
  argv = [];
  now = "2026-01-01T00:00:00Z";
  message = λ e. "error";
  also_failed = λ s. s;
  log_path = "/log";
}

-- a question with two evidence files
abbrev args : Args
args = record {
  info = false;
  request_file = none;
  kind = some "noul";
  question = some "safe?";
  state_json = none;
  state_file = none;
  evidence_file = "notes" ∷ "./notes" ∷ [];
  options = none;
  strategy = none;
  thinking = some "off";
}

run_code : (main nat_floats environment args opened opened writable writable []).code ≡ some 0
unfolding main report handle_error print_answer run_request decide send_to send settings env_number
    env_retries of_outcome is_encodable build_body body_of body_of_args body_with with_state
    is_given assign_text assign_texts add_evidence read_file paths mem given validate
    validate_fields all_known known_kind good_question check_options check_threshold find assign
    endpoint endpoint_path base_path request_json request_loop is_retryable conclude append_audit
    append_to entries previous_hash event_of write encode_and_write sha256_json body_hashes
run_code = refl

run_request-IsRequested_example :
    Finishes nat_floats environment
      (IsRequested nat_floats environment args)
      (run_request nat_floats environment args)
run_request-IsRequested_example = run_request-IsRequested nat_floats environment args

main-IsAudited_example :
    IsAudited nat_floats environment args
      (run_request nat_floats environment args)
      writable
      writable
      []
      (main nat_floats environment args opened opened writable writable [])
    × ((hash : Value) × AreLinked plain
          (entries (main nat_floats environment args opened opened writable writable []).lines)
          hash)
unfolding entries
main-IsAudited_example =
    main-IsAudited nat_floats environment args (λ e. refl) writable writable [] zero_hash refl
