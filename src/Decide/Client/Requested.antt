-- ===== src/Decide/Client/Requested.antt =====
-- What the client has sent when it has an answer.
use vllm_production_stack_cu.Base.{
  ℕ, suc, ◌≤◌, ◌≡◌, refl, sym, ap, subst, String, Bool, true, false, not, ◌||◌, Option, none, some,
  List, [], ◌∷◌, arith, leb, ◌==◌, string_eq, if◌then◌else◌, inl, inr, ◌⊎◌, Bool-cases,
}
use vllm_production_stack_cu.Base.Floats.{Floats}
use vllm_production_stack_cu.Base.Json.{Value, Fields}
use vllm_production_stack_cu.Decide.Retry.{
  Answer, http_error, broken_error, connection_error, other_exception, response, Outcome, done,
  failed, os_error, escaped, assertion_error, conclude, AllRetryable, request_json,
  request_json-IsConcluded,
}
use vllm_production_stack_cu.Decide.Validate.{endpoint, info_with_inputs}
use vllm_production_stack_cu.Decide.Results.{Result-cases, Returns, bind-Returns, Returns-any}
use vllm_production_stack_cu.Decide.Body.{Args, given, build_body}
use vllm_production_stack_cu.Decide.Body.Evidence.{IsBuilt, build_body-IsBuilt}
use vllm_production_stack_cu.Decide.Client.{
  Environment, Method, get, post, Run, Step, finished, raised, uncaught, Whole, no_number, negative,
  whole, start, env_number, env_retries, settings, of_outcome, is_encodable, send, send_to, decide,
  run_request, has_inputs,
}

or_false : (x y : Bool) → (x || y) ≡ false → (x ≡ false) × (y ≡ false)
or_false x y e = (ground (arith, e), ground (arith, e))

-- An object that a request ended with is the answer to its last attempt.
conclude_done :
    (a : Answer) (n : ℕ) (fields : Fields) (attempts : ℕ)
    → conclude a n ≡ done fields attempts
    → (a ≡ response (some (Value.obj fields))) × (n ≡ attempts)
unfolding conclude
conclude_done (http_error code) n fields attempts e = cc
conclude_done broken_error n fields attempts e = cc
conclude_done connection_error n fields attempts e = cc
conclude_done other_exception n fields attempts e = cc
conclude_done (response none) n fields attempts e = cc
conclude_done (response (some (Value.obj fs))) n fields attempts e =
    (ap (λ x. response (some (Value.obj x))) cc, cc)
conclude_done (response (some v)) n fields attempts e = (cc, cc)

module _ (fl : Floats) (env : Environment fl) where
  -- The run has the answer, which the server gave to its last attempt, of six at most, to the url
  -- with the request of the run. The earlier attempts, with the same url and request, had answers that
  -- a retry may follow.
  abbrev pub IsAnswered : Method → Run → Fields → Type 0
  IsAnswered method run fields =
      (url : String) × (last : ℕ) × (run.url ≡ some url)
      × (run.response_body ≡ some fields)
      × (run.attempts ≡ suc last)
      × (last ≤ 5)
      × (env.answers method url run.request_body last ≡ response (some (Value.obj fields)))
      × AllRetryable (env.answers method url run.request_body) last

  -- a text that was not given, or is empty
  abbrev IsOmitted : Option String → Type 0
  IsOmitted o = (o ≡ none) ⊎ (o ≡ some "")

  -- An answer that the requests end with has the property.
  abbrev pub Finishes : (Run → Fields → Type 0) → Step → Type 0
  Finishes P (finished run fields) = P run fields
  Finishes P (raised run e attempts) = Unit
  Finishes P uncaught = Unit

  Finishes-map :
      (P Q : Run → Fields → Type 0) (step : Step)
      → ((run : Run) (fields : Fields) → P run fields → Q run fields)
      → Finishes P step
      → Finishes Q step
  Finishes-map P Q (finished run fields) f x = f run fields x
  Finishes-map P Q (raised run e attempts) f x = tt
  Finishes-map P Q uncaught f x = tt

  -- What a run that ends with an answer has sent: for --info no body, for a decision a request that
  -- was built from the arguments.
  abbrev pub IsRequested : Args → Run → Fields → Type 0
  IsRequested args run fields =
      ((args.info ≡ true)
        × IsOmitted args.request_file
        × IsOmitted args.kind
        × IsOmitted args.question
        × IsOmitted args.state_json
        × IsOmitted args.state_file
        × (args.evidence_file ≡ [])
        × (run.request_body ≡ none)
        × IsAnswered get run fields)
      ⊎ ((args.info ≡ false)
          × ((body : Fields) × (run.request_body ≡ some body)
              × IsBuilt env.io env.is_finite env.blank args (body, run.evidence))
          × IsAnswered post run fields)

  -- The run has an answer to its request, which is that of another run, with its evidence.
  abbrev Sends : Method → Run → Run → Fields → Type 0
  Sends method run r fields =
      IsAnswered method r fields × (r.request_body ≡ run.request_body) × (r.evidence ≡ run.evidence)

  env_retries-Returns : (w : Whole) → Returns (λ n. n ≤ 5) (env_retries fl env w)
  unfolding env_retries
  env_retries-Returns no_number = tt
  env_retries-Returns negative = tt
  env_retries-Returns (whole n) = elim (Bool-cases (leb n 5)) [
    | inl e ↦ rw (e, env_retries) (ground (arith, e))
    | inr e ↦ rw (e, env_retries) tt
  ]

  settings-Returns : Returns (λ (n, pause). n ≤ 5) (settings fl env)
  unfolding settings
  settings-Returns =
      bind-Returns {A = fl.F} {B = ℕ × fl.F} (λ x. Unit) (λ (n, pause). n ≤ 5)
        (env_number fl env env.timeout (fl.div (fl.of_ℕ 1) (fl.of_ℕ 1000)) (fl.of_ℕ 3600)) _
        (Returns-any _)
        (λ x q e.
          bind-Returns {A = ℕ} {B = ℕ × fl.F} (λ n. n ≤ 5) (λ (n, pause). n ≤ 5)
            (env_retries fl env env.retries) _ (env_retries-Returns env.retries)
            (λ n few e.
              bind-Returns {A = fl.F} {B = ℕ × fl.F} (λ x. Unit) (λ (n, pause). n ≤ 5)
                (env_number fl env env.backoff (fl.of_ℕ 0) (fl.of_ℕ 10)) _ (Returns-any _)
                (λ x q e. few)))

  of_outcome-Finishes :
      (run : Run) (method : Method) (url : String) (max : ℕ) (pause : fl.F) (o : Outcome)
      → run.url ≡ some url
      → max ≤ 5
      → (last : ℕ) → last ≤ max
      → o ≡ conclude (env.answers method url run.request_body last) (suc last)
      → AllRetryable (env.answers method url run.request_body) last
      → Finishes (Sends method run) (of_outcome fl env run o)
  unfolding of_outcome
  of_outcome-Finishes run method url max pause (done fields attempts) u few last bound e before =
      let (answer, count) =
        conclude_done (env.answers method url run.request_body last) (suc last) fields attempts
          (sym e) in
      ((url, last, u, refl, sym count, omega arith, answer, before), refl, refl)
  of_outcome-Finishes run method url max pause (failed x attempts) u few last bound e before = tt
  of_outcome-Finishes run method url max pause os_error u few last bound e before = tt
  of_outcome-Finishes run method url max pause escaped u few last bound e before = tt
  of_outcome-Finishes run method url max pause assertion_error u few last bound e before = tt

  send-Finishes :
      (run : Run) (method : Method) (url : String)
      → run.url ≡ some url
      → Finishes (Sends method run) (send fl env run method url)
  unfolding send
  send-Finishes run method url u = elim (Result-cases (settings fl env)) [
    | inl (inl (x, e)) ↦ rw (e, send) tt
    | inl (inr e) ↦ rw (e, send) tt
    | inr ((max, pause), e) ↦
        let c = request_json-IsConcluded fl (env.answers method url run.request_body) max pause in
        let few : max ≤ 5 = subst (Returns (λ (n, pause). n ≤ 5)) e settings-Returns in
        elim (Bool-cases (is_encodable fl env run.request_body)) [
          | inl b ↦
              rw (e, b, send)
                (of_outcome-Finishes run method url max pause
                  (request_json fl (env.answers method url run.request_body) max pause).0 u few
                  c.last c.in_bounds c.outcome c.earlier)
          | inr b ↦ rw (e, b, send) tt
        ]
  ]

  send_to-Finishes :
      (run : Run) (method : Method) (info : Bool)
      → Finishes (Sends method run) (send_to fl env run method info)
  unfolding send_to
  send_to-Finishes run method info =
      elim (Result-cases (endpoint env.urlsplit env.urlunsplit env.base_url info)) [
        | inl (inl (x, e)) ↦ rw (e, send_to) tt
        | inl (inr e) ↦ rw (e, send_to) tt
        | inr (url, e) ↦
            rw (e, send_to) (send-Finishes (record run { url = some url }) method url refl)
      ]

  string_of : (s : String) → not (s == "") ≡ false → s ≡ ""
  string_of s e = (string_eq.same_iff s "").0 (ground (arith, e))

  given-IsOmitted : (o : Option String) → given o ≡ false → IsOmitted o
  unfolding given
  given-IsOmitted none e = inl refl
  given-IsOmitted (some s) e = inr (ap some (string_of s e))

  no_files : (fs : List String) → (elim fs [ [] ↦ false | f ∷ fs ↦ true ]) ≡ false → fs ≡ []
  no_files [] e = refl
  no_files (f ∷ fs) e = cc

  has_inputs-IsOmitted :
      (args : Args)
      → has_inputs args ≡ false
      → IsOmitted args.request_file
        × IsOmitted args.kind
        × IsOmitted args.question
        × IsOmitted args.state_json
        × IsOmitted args.state_file
        × (args.evidence_file ≡ [])
  unfolding has_inputs
  has_inputs-IsOmitted args e =
      let (e1, none_given) =
        or_false _ (elim args.evidence_file [ [] ↦ false | f ∷ fs ↦ true ]) e in
      let (e2, no_state_file) = or_false _ (given args.state_file) e1 in
      let (e3, no_state) = or_false _ (given args.state_json) e2 in
      let (e4, no_question) = or_false _ (given args.question) e3 in
      let (no_request, no_kind) = or_false (given args.request_file) (given args.kind) e4 in
      (
        given-IsOmitted args.request_file no_request,
        given-IsOmitted args.kind no_kind,
        given-IsOmitted args.question no_question,
        given-IsOmitted args.state_json no_state,
        given-IsOmitted args.state_file no_state_file,
        no_files args.evidence_file none_given,
      )

  info-Finishes :
      (args : Args) (b : Bool)
      → args.info ≡ true
      → has_inputs args ≡ b
      → Finishes
          (IsRequested args)
          (if b then raised start info_with_inputs 0 else send_to fl env start get true)
  info-Finishes args true i e = tt
  info-Finishes args false i e =
      Finishes-map (Sends get start) (IsRequested args) (send_to fl env start get true)
        (λ run fields (answered, nothing, evidence).
          let (a, b, c, d, f, g) = has_inputs-IsOmitted args e in
          inl (i, a, b, c, d, f, g, nothing, answered))
        (send_to-Finishes start get true)

  decide-Finishes :
      (args : Args) → args.info ≡ false → Finishes (IsRequested args) (decide fl env args)
  unfolding decide
  decide-Finishes args i = elim (Result-cases (build_body env.io env.is_finite env.blank args)) [
    | inl (inl (x, e)) ↦ rw (e, decide) tt
    | inl (inr e) ↦ rw (e, decide) tt
    | inr ((body, evidence), e) ↦
        let built : IsBuilt env.io env.is_finite env.blank args (body, evidence) =
          subst (Returns (IsBuilt env.io env.is_finite env.blank args)) e
            (build_body-IsBuilt env.io env.is_finite env.blank args) in
        let run = record start { request_body = some body; evidence = evidence } in
        rw (e, decide)
          (Finishes-map (Sends post run) (IsRequested args) (send_to fl env run post false)
            (λ r fields (answered, same, kept). inr (
              i,
              (
                body,
                same,
                subst (λ es. IsBuilt env.io env.is_finite env.blank args (body, es)) (sym kept)
                    built,
              ),
              answered,
            ))
            (send_to-Finishes run post false))
  ]

  -- When the requests of the client end with an answer, then it is what the server gave to the last of
  -- six attempts at most, to the recorded url, and what it gave to the earlier ones there may be
  -- retried. With --info no request file, kind, question, state or state file was given, or an empty
  -- text for it, no evidence file was given, and the request had no body. Without, the recorded body
  -- was sent: it is accepted by
  -- the validation, and the evidence has one manifest for each path, with the path of every evidence
  -- file among them.
  pub run_request-IsRequested :
      (args : Args) → Finishes (IsRequested args) (run_request fl env args)
  unfolding run_request
  run_request-IsRequested args = by_info args.info refl
    where
      by_info :
          (b : Bool)
          → args.info ≡ b
          → Finishes (IsRequested args) (
              if b
              then (if has_inputs args
                  then raised start info_with_inputs 0
                  else send_to fl env start get true)
              else decide fl env args)
      by_info true i = info-Finishes args (has_inputs args) i refl
      by_info false i = decide-Finishes args i
