-- ===== src/Decide/Body.antt =====
-- `read_file`, `load_json` and `build_body` of skills/jev-decide/scripts/decide.py.
pub mod Sources
pub mod Evidence
use vllm_production_stack_cu.Base.{
  ℕ, String, Bool, true, false, ◌&&◌, ◌||◌, not, Option, none, some, List, [], ◌∷◌, ◌++◌, ◌==◌,
  string_eq, if◌then◌else◌,
}
use vllm_production_stack_cu.Base.Dict.{mem}
use vllm_production_stack_cu.Base.Json.{Value, Items, Fields, nil, item, end, field, assign}
use vllm_production_stack_cu.Decide.Validate.{
  Result, ok, client_error, crashed, bind, validate, invalid_json, unreadable_file, not_utf8,
  kind_and_question_required, two_states,
}

-- the arguments of the command line
pub record Args : Type 0 where
  pub info : Bool
  pub request_file : Option String
  pub kind : Option String
  pub question : Option String
  pub state_json : Option String
  pub state_file : Option String
  pub evidence_file : List String
  pub options : Option (List String)
  pub strategy : Option String
  pub thinking : Option String

-- a resolved path and the bytes there: their number, their SHA-256, and what they decode to
pub record File : Type 0 where
  pub path : String
  pub size_bytes : ℕ
  pub sha256 : String
  pub text : Option String

-- what reading a path gives; `no_home` is the RuntimeError of a home that is not known
pub data Reading : Type 0 where
  os_error no_home : Reading
  contents : File → Reading

-- the manifest of a file
pub record Entry : Type 0 where
  pub role : String
  pub path : String
  pub size_bytes : ℕ
  pub sha256 : String

-- an option of the command line that is given and not empty
unfoldable pub given : Option String → Bool
given none = false
given (some s) = not (s == "")

-- is not None
unfoldable pub is_given : Option String → Bool
is_given none = false
is_given (some s) = true

abbrev pub texts : List String → Items
texts [] = nil
texts (s ∷ ss) = item (Value.str s) (texts ss)

unfoldable pub assign_text : String → Option String → Fields → Fields
assign_text k none body = body
assign_text k (some s) body = assign k (Value.str s) body

unfoldable pub assign_texts : String → Option (List String) → Fields → Fields
assign_texts k none body = body
assign_texts k (some ss) body = assign k (Value.arr (texts ss)) body

-- seen = {item["path"] for item in evidence}
unfoldable pub paths : List Entry → List String
paths [] = []
paths (e ∷ es) = e.path ∷ paths es

-- what the program reads: the file at a path, the standard input, `none` if it is no text, and what a
-- text is as JSON, `none` if it is none
pub record Inputs : Type 0 where
  pub read_bytes : String → Reading
  pub stdin : Option String
  pub loads : String → Option Value

module _ (io : Inputs) where
  open io use {read_bytes, stdin, loads}

  unfoldable pub load_json : String → Result Value
  load_json text = elim (loads text) [ none ↦ client_error invalid_json | some v ↦ ok v ]

  unfoldable pub read_file : String → String → Result (Option String × Entry)
  read_file path_value label = elim (read_bytes path_value) [
    | os_error ↦ client_error unreadable_file
    | no_home ↦ crashed
    | contents f ↦ ok (
      f.text,
      record { role = label; path = f.path; size_bytes = f.size_bytes; sha256 = f.sha256 },
    )
  ]

  -- a file that is read as UTF-8 and as JSON
  unfoldable pub read_json : String → String → Result (Value × Entry)
  unfolding read_file load_json
  read_json path_value label = bind (read_file path_value label) (λ (text, entry). elim text [
    | none ↦ client_error not_utf8
    | some t ↦ bind (load_json t) (λ v. ok (v, entry))
  ])

  -- the loop over the evidence files
  unfoldable pub add_evidence : List String → List Entry → Result (List Entry)
  unfolding read_file paths
  add_evidence [] evidence = ok evidence
  add_evidence (path_value ∷ rest) evidence =
      bind (read_file path_value "evidence_file") (λ (text, entry).
        add_evidence rest
          (if mem entry.path (paths evidence) then evidence else evidence ++ (entry ∷ [])))

  -- "state" of the body, and the manifest of the file it is from
  unfoldable pub with_state : Args → Fields → Result (Fields × List Entry)
  unfolding load_json read_json
  with_state args body = elim args.state_json [
    | some text ↦ bind (load_json text) (λ v. ok (assign "state" v body, []))
    | none ↦ elim args.state_file [
      | none ↦ ok (body, [])
      | some path_value ↦
          bind (read_json path_value "state_file")
            (λ (v, entry). ok (assign "state" v body, entry ∷ []))
    ]
  ]

  -- the request with a kind and a question
  unfoldable pub body_with : Args → String → String → Result (Value × List Entry)
  unfolding with_state is_given assign_text assign_texts
  body_with args kind question =
      if is_given args.state_json && is_given args.state_file
      then client_error two_states
      else bind
          (with_state args
            (field "kind" (Value.str kind) (field "question" (Value.str question) end)))
          (λ (body, evidence). ok (
            Value.obj (
                assign_text "thinking" args.thinking (
                  assign_text "strategy" args.strategy (assign_texts "options" args.options body))),
            evidence,
          ))

  -- the request that the options describe
  unfoldable pub body_of_args : Args → Result (Value × List Entry)
  unfolding body_with
  body_of_args args = elim args.kind [
    | none ↦ client_error kind_and_question_required
    | some kind ↦
        if kind == "" then client_error kind_and_question_required else (elim args.question [
          | none ↦ client_error kind_and_question_required
          | some question ↦ body_with args kind question
        ])
  ]

  -- the request in the standard input
  unfoldable pub body_of_stdin : Result (Value × List Entry)
  unfolding load_json
  body_of_stdin = elim stdin [
    | none ↦ crashed
    | some text ↦ bind (load_json text) (λ v. ok (v, []))
  ]

  -- the request in a file, or in the standard input for "-"
  unfoldable pub body_of_file : String → Result (Value × List Entry)
  unfolding read_json body_of_stdin
  body_of_file request_file =
      if request_file == "-"
      then body_of_stdin
      else bind (read_json request_file "request_file") (λ (v, entry). ok (v, entry ∷ []))

  unfoldable pub body_of : Args → Result (Value × List Entry)
  unfolding body_of_file body_of_args given
  body_of args = elim args.request_file [
    | none ↦ body_of_args args
    | some f ↦ if given (some f) then body_of_file f else body_of_args args
  ]

  module _ (is_finite : Value → Option Bool) (blank : String → Bool) where
    unfoldable pub build_body : Args → Result (Fields × List Entry)
    unfolding body_of add_evidence validate
    build_body args = bind (body_of args) (λ (v, first).
        bind (validate is_finite blank v)
          (λ body. bind (add_evidence args.evidence_file first) (λ evidence. ok (body, evidence))))
