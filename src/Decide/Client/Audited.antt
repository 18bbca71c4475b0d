-- ===== src/Decide/Client/Audited.antt =====
-- What a run of the client leaves in the log.
use vllm_production_stack_cu.Base.{
  Option-cases, ℕ, ◌≤◌, String, ◌≡◌, refl, sym, ◌∙◌, ap, subst, false, Option, none, some, List,
  ◌∷◌, ◌==◌, string_eq, inl, inr, ◌⊎◌, arith,
}
use vllm_production_stack_cu.Base.Floats.{Floats}
use vllm_production_stack_cu.Base.Json.{Value, Fields, find, assign, find-assign}
use vllm_production_stack_cu.Decide.Audit.{
  Hashing, Line, line, opened, Appended, written, crashed, entries, append_audit,
}
use vllm_production_stack_cu.Decide.Audit.Links.{AreLinked, Extends, append_audit-AreLinked}
use vllm_production_stack_cu.Decide.Validate.{ClientError, broken_output}
use vllm_production_stack_cu.Decide.Body.{Args}
use vllm_production_stack_cu.Decide.Client.{
  Environment, Run, Step, finished, raised, uncaught, run_request,
}
use vllm_production_stack_cu.Decide.Client.Events.{
  Exit, StdStream, writable, broken, unencodable, exception, object_or_null, outcome_of,
  sha256_json, body_hashes, audit_record, larger, with_attempts, handle_error, report, print_error,
  print_payload, print_answer, main,
}

-- the larger of two numbers
abbrev pub IsMax : ℕ → ℕ → ℕ → Type 0
IsMax m n k = (m ≤ k) × (n ≤ k) × ((k ≡ m) ⊎ (k ≡ n))

larger-IsMax : (m n : ℕ) → IsMax m n (larger m n)
unfolding larger
larger-IsMax m n = ground arith

-- The body can be encoded, or its hash is an exception.
sha256_json-cases :
    (h : Hashing) (o : Option Fields)
    → ((v : Fields) × (o ≡ some v) × (h.encode v ≡ none) × (sha256_json h o ≡ none))
      ⊎ ((hash : Value) × (sha256_json h o ≡ some hash))
unfolding sha256_json
sha256_json-cases h none = inr (Value.null, refl)
sha256_json-cases h (some v) = elim (Option-cases (h.encode v)) [
  | inl e ↦ inl (v, refl, e, rw (e, sha256_json) refl)
  | inr (bytes, e) ↦ inr (h.digest bytes, rw (e, sha256_json) refl)
]

body_hashes-cases :
    (h : Hashing) (run : Run)
    → ((v : Fields) × ((run.request_body ≡ some v) ⊎ (run.response_body ≡ some v))
        × (h.encode v ≡ none)
        × (body_hashes h run ≡ none))
      ⊎ ((hs : Value × Value) × (body_hashes h run ≡ some hs))
unfolding body_hashes
body_hashes-cases h run = elim (sha256_json-cases h run.request_body) [
  | inl (v, is, e, none_of) ↦ inl (v, inl is, e, rw (none_of, body_hashes) refl)
  | inr (hash, e) ↦ elim (sha256_json-cases h run.response_body) [
    | inl (v, is, e', none_of) ↦ inl (v, inr is, e', rw (e, none_of, body_hashes) refl)
    | inr (hash', e') ↦ inr ((hash, hash'), rw (e, e', body_hashes) refl)
  ]
]

module _ (fl : Floats) (env : Environment fl) (args : Args) where
  -- an event of the run, with the attempts and the outcome
  abbrev pub IsEvent : Run → ℕ → String → Fields → Type 0
  IsEvent run attempts outcome event =
      (find "audit_id" event ≡ some (Value.str env.audit_id))
      × (find "outcome" event ≡ some (Value.str outcome))
      × (find "request" event ≡ some (object_or_null run.request_body))
      × (find "response" event ≡ some (object_or_null run.response_body))
      × (find "attempts" event ≡ some (Value.num attempts))

  -- The log has one more event, of the given run, with the given outcome.
  abbrev pub Records : Run → ℕ → String → List Line → List Line → Type 0
  Records run attempts outcome before after =
      (event : Fields) × (after ≡ line (some (Value.obj event)) ∷ before)
      × IsEvent run attempts outcome event

  -- An exception that leaves the log as it was: the request, the response or the event cannot be
  -- encoded.
  abbrev pub Breaks : Run → ℕ → String → List Line → Exit → Type 0
  Breaks run attempts outcome before r =
      (r.code ≡ none)
      × (r.lines ≡ before)
      × ((v : Fields) × (env.hashing.encode v ≡ none)
          × (IsEvent run attempts outcome v
              ⊎ (run.request_body ≡ some v)
              ⊎ (run.response_body ≡ some v)))

  -- the code, or an exception when the stream fails
  abbrev pub IsCode : StdStream → ℕ → Exit → Type 0
  IsCode writable n r = r.code ≡ some n
  IsCode broken n r = r.code ≡ none
  IsCode unencodable n r = r.code ≡ none

  -- What a caught error with its attempts leaves, for what the standard error does.
  abbrev pub IsFailed : Run → ℕ → StdStream → List Line → Exit → Type 0
  IsFailed run attempts err before r =
      (n : ℕ) × IsMax run.attempts attempts n
      × ((IsCode err 2 r × Records run n "error" before r.lines) ⊎ Breaks run n "error" before r)

  -- The answer was printed, with one more key.
  abbrev pub IsPrinted : Fields → Exit → Type 0
  IsPrinted fields r =
      (shown : Fields) × (r.printed ≡ some shown)
      × ((k : String) → ("_jev_client" == k) ≡ false → find k shown ≡ find k fields)

  -- What an answer leaves, for what the standard output does.
  abbrev pub IsReported : Run → Fields → StdStream → StdStream → List Line → Exit → Type 0
  IsReported run fields writable err before r =
      (r.code ≡ some 0) × IsPrinted fields r × Records run run.attempts "success" before r.lines
  IsReported run fields broken err before r =
      (middle : List Line) × Records run run.attempts "success" before middle
      × IsFailed run 0 err middle r
  IsReported run fields unencodable err before r =
      (r.code ≡ none) × Records run run.attempts "success" before r.lines

  -- What a run of the client leaves, for the way that its requests end and for what the streams do.
  abbrev pub IsAudited : Step → StdStream → StdStream → List Line → Exit → Type 0
  IsAudited (finished run fields) out err before r =
      IsReported run fields out err before r ⊎ Breaks run run.attempts "success" before r
  IsAudited (raised run e attempts) out err before r = IsFailed run attempts err before r
  IsAudited uncaught out err before r = (r.code ≡ none) × (r.lines ≡ before)

  abbrev Linked : List Line → Type 0
  Linked lines = (hash : Value) × AreLinked env.hashing (entries lines) hash

  record-IsEvent :
      (hs : Value × Value) (run : Run) (error : Option String) (outcome : String) (event : Fields)
      → outcome_of error ≡ Value.str outcome
      → Extends env.hashing event (audit_record fl env args hs run error)
      → IsEvent run run.attempts outcome event
  unfolding audit_record find
  record-IsEvent hs run error outcome event o e = (
    e "audit_id" refl refl,
    e "outcome" refl refl ∙ ap some o,
    e "request" refl refl,
    e "response" refl refl,
    e "attempts" refl refl,
  )

  -- what an append of a record of the run leaves
  abbrev Recorded : Run → String → List Line → List Line × Appended → Type 0
  Recorded run outcome lines r =
      ((event : Fields) × (r ≡ (line (some (Value.obj event)) ∷ lines, written event))
        × IsEvent run run.attempts outcome event
        × Linked (line (some (Value.obj event)) ∷ lines))
      ⊎ ((v : Fields) × (env.hashing.encode v ≡ none)
          × IsEvent run run.attempts outcome v
          × (r ≡ (lines, crashed)))

  record-Recorded :
      (hs : Value × Value) (run : Run) (error : Option String) (outcome : String)
      (lines : List Line)
      → outcome_of error ≡ Value.str outcome
      → Linked lines
      → Recorded run outcome lines
          (append_audit env.hashing opened lines (audit_record fl env args hs run error))
  record-Recorded hs run error outcome lines o (hash, c) =
      let (appended, linked') =
        append_audit-AreLinked env.hashing lines (audit_record fl env args hs run error) hash c in
      elim appended [
        | inl (event, same, is, kept, l) ↦ inl (
          event,
          pair same is,
          record-IsEvent hs run error outcome event o kept,
          subst Linked same linked',
        )
        | inr (v, none_of, kept, same, is) ↦
            inr (v, none_of, record-IsEvent hs run error outcome v o kept, pair same is)
      ]
    where
      pair :
          {r : List Line × Appended} {ls : List Line} {a : Appended}
          → r.0 ≡ ls
          → r.1 ≡ a
          → r ≡ (ls, a)
      pair x y = cc

  print_answer_crashed :
      (out err : StdStream) (hs : Value × Value) (run : Run) (fields : Fields) (lines : List Line)
      → print_answer fl env args opened out err hs run fields (lines, crashed) ≡ exception lines
  unfolding print_answer
  print_answer_crashed writable err hs run fields lines = refl
  print_answer_crashed broken err hs run fields lines = refl
  print_answer_crashed unencodable err hs run fields lines = refl

  module _ (named : (e : ClientError) → (env.message e == "") ≡ false) where
    error-outcome : (e : ClientError) → outcome_of (some (env.message e)) ≡ Value.str "error"
    unfolding outcome_of
    error-outcome e = rw (named e, outcome_of) refl

    print_error-IsCode :
        (err : StdStream) (hs : Value × Value) (run : Run) (e : ClientError) (lines : List Line)
        (event : Fields)
        → let r = print_error fl env args err hs run e (lines, written event) in
          IsCode err 2 r × (r.lines ≡ lines)
    unfolding print_error print_payload
    print_error-IsCode writable hs run e lines event = (refl, refl)
    print_error-IsCode broken hs run e lines event = (refl, refl)
    print_error-IsCode unencodable hs run e lines event = (refl, refl)

    print_error-IsFailed :
        (err : StdStream) (hs : Value × Value) (run : Run) (e : ClientError) (attempts : ℕ)
        (lines : List Line) (appended : List Line × Appended)
        → Linked lines
        → IsMax run.attempts attempts (with_attempts run attempts).attempts
        → Recorded (with_attempts run attempts) "error" lines appended
        → let r = print_error fl env args err hs (with_attempts run attempts) e appended in
          IsFailed run attempts err lines r × Linked r.lines
    unfolding print_error
    print_error-IsFailed err hs run e attempts lines appended c most (inl (event, same, is, c')) =
        let run' = with_attempts run attempts in
        let after = line (some (Value.obj event)) ∷ lines in
        let (code, kept) = print_error-IsCode err hs run' e after event in
        subst
          (λ a.
            let r = print_error fl env args err hs run' e a in
            IsFailed run attempts err lines r × Linked r.lines)
          (sym same)
          ((run'.attempts, most, inl (code, (event, kept, is))), subst Linked (sym kept) c')
    print_error-IsFailed err hs run e attempts lines appended c most (inr (v, none_of, is, same)) =
        let run' = with_attempts run attempts in
        subst
          (λ a.
            let r = print_error fl env args err hs run' e a in
            IsFailed run attempts err lines r × Linked r.lines)
          (sym same) ((run'.attempts, most, inr (refl, refl, (v, none_of, inl is))), c)

    handle_error-IsFailed :
        (err : StdStream) (lines : List Line) (run : Run) (e : ClientError) (attempts : ℕ)
        → Linked lines
        → let r = handle_error fl env args opened err lines run e attempts in
          IsFailed run attempts err lines r × Linked r.lines
    unfolding handle_error print_error
    handle_error-IsFailed err lines run e attempts c =
        let run' = with_attempts run attempts in
        let most = larger-IsMax run.attempts attempts in
        elim (body_hashes-cases env.hashing run') [
          | inl (v, is, none_of, q) ↦
              rw (q, handle_error)
                ((run'.attempts, most, inr (refl, refl, (v, none_of, inr is))), c)
          | inr (hs, q) ↦
              rw (q, handle_error)
                (print_error-IsFailed err hs run e attempts lines _ c most (
                  record-Recorded hs run' (some (env.message e)) "error" lines (error-outcome e) c))
        ]

    print_answer-IsReported :
        (out err : StdStream) (hs : Value × Value) (lines : List Line) (run : Run)
        (fields event : Fields)
        → IsEvent run run.attempts "success" event
        → Linked (line (some (Value.obj event)) ∷ lines)
        → let r =
            print_answer fl env args opened out err hs run fields
              (line (some (Value.obj event)) ∷ lines, written event) in
          IsReported run fields out err lines r × Linked r.lines
    unfolding print_answer
    print_answer-IsReported writable err hs lines run fields event is c = (
      (
        refl,
        (
          assign "_jev_client" _ fields,
          refl,
          λ k e. find-assign "_jev_client" k _ fields ∙ rw e refl,
        ),
        (event, refl, is),
      ),
      c,
    )
    print_answer-IsReported broken err hs lines run fields event is c =
        let after = line (some (Value.obj event)) ∷ lines in
        let (failure, c') = handle_error-IsFailed err after run broken_output 0 c in
        ((after, (event, refl, is), failure), c')
    print_answer-IsReported unencodable err hs lines run fields event is c =
        ((refl, (event, refl, is)), c)

    report-IsAudited :
        (out err : StdStream) (lines : List Line) (run : Run) (fields : Fields)
        → Linked lines
        → let r = report fl env args opened opened out err lines run fields in
          IsAudited (finished run fields) out err lines r × Linked r.lines
    unfolding report print_answer
    report-IsAudited out err lines run fields c = elim (body_hashes-cases env.hashing run) [
      | inl (v, is, none_of, q) ↦ rw (q, report) (inr (refl, refl, (v, none_of, inr is)), c)
      | inr (hs, q) ↦ elim (record-Recorded hs run none "success" lines refl c) [
        | inl (event, appended, is, linked') ↦
            let (reported, c') =
              print_answer-IsReported out err hs lines run fields event is linked' in
            rw (q, appended, report) (inl reported, c')
        | inr (v, none_of, is, appended) ↦
            rw (q, appended, print_answer_crashed out err hs run fields lines, report)
              (inr (refl, refl, (v, none_of, inl is)), c)
      ]
    ]

    step-IsAudited :
        (step : Step) (out err : StdStream) (lines : List Line)
        → run_request fl env args ≡ step
        → Linked lines
        → let r = main fl env args opened opened out err lines in
          IsAudited step out err lines r × Linked r.lines
    unfolding main
    step-IsAudited (finished run fields) out err lines e c =
        rw (e, main) (report-IsAudited out err lines run fields c)
    step-IsAudited (raised run x attempts) out err lines e c =
        rw (e, main) (handle_error-IsFailed err lines run x attempts c)
    step-IsAudited uncaught out err lines e c = rw (e, main) ((refl, refl), c)

    -- A run of the client, with a log of linked events that opens and takes the event at each append,
    -- and with errors whose texts are not empty. An answer that is printed ends with the code 0 and one
    -- event of the outcome success, and what is printed is the answer but for one key. An answer that
    -- the standard output does not take leaves that event, and, for an OSError, what a caught error
    -- leaves; a text that the output cannot encode is an exception. A caught error ends with the code 2,
    -- or with an exception if the standard error fails, and with one event of the outcome error, whose
    -- attempts are the larger of those of the run and of the error. An exception in the requests leaves
    -- the log as it was, and so does one of an event, or a body of the run, that cannot be encoded. The
    -- events have the id of the process and the request, the response and the attempts of the run, and
    -- the log is one of linked events again.
    pub main-IsAudited :
        (out err : StdStream) (lines : List Line) (hash : Value)
        → AreLinked env.hashing (entries lines) hash
        → IsAudited
            (run_request fl env args)
            out
            err
            lines
            (main fl env args opened opened out err lines)
          × ((hash' : Value) × AreLinked env.hashing
                (entries (main fl env args opened opened out err lines).lines)
                hash')
    main-IsAudited out err lines hash c =
        step-IsAudited (run_request fl env args) out err lines refl (hash, c)
