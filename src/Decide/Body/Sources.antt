-- ===== src/Decide/Body/Sources.antt =====
-- Where the request of `build_body` is from: at most one file.
use vllm_production_stack_cu.Base.{
  String, ◌≡◌, refl, ◌&&◌, Option, none, some, List, [], ◌∷◌, ◌==◌, string_eq, Bool-cases, inl, inr,
  ◌⊎◌, ◌⊎◌,
}
use vllm_production_stack_cu.Base.Json.{Value, Fields, field, end}
use vllm_production_stack_cu.Decide.Results.{Returns, bind-Returns, if-Returns}
use vllm_production_stack_cu.Decide.Body.{
  Args, File, Reading, os_error, no_home, contents, Entry, load_json, Inputs, read_file, read_json,
  with_state, body_with, body_of_args, body_of_file, body_of_stdin, body_of, given, is_given,
}

-- a list with one entry at most
abbrev pub AtMostOne : List Entry → Type 0
AtMostOne [] = Unit
AtMostOne (e ∷ []) = Unit
AtMostOne (e ∷ f ∷ es) = ⊥

pub Option-cases : {A : Type 0} (o : Option A) → (o ≡ none) ⊎ ((a : A) × (o ≡ some a))
Option-cases none = inl refl
Option-cases (some a) = inr (a, refl)

pub Reading-cases : (r : Reading) → (r ≡ os_error) ⊎ (r ≡ no_home) ⊎ ((f : File) × (r ≡ contents f))
Reading-cases os_error = inl refl
Reading-cases no_home = inr (inl refl)
Reading-cases (contents f) = inr (inr (f, refl))

module _ (io : Inputs) where
  open io use {read_bytes, loads, stdin}

  load_json-Returns : (text : String) → Returns (λ v. Unit) (load_json io text)
  unfolding load_json
  load_json-Returns text = elim (Option-cases (loads text)) [
    | inl e ↦ rw (e, load_json) tt
    | inr (v, e) ↦ rw (e, load_json) tt
  ]

  pub read_file-Returns :
      (p label : String)
      → Returns
          (λ (text, entry). (f : File) × (read_bytes p ≡ contents f) × (entry.path ≡ f.path))
          (read_file io p label)
  unfolding read_file
  read_file-Returns p label = elim (Reading-cases (read_bytes p)) [
    | inl e ↦ rw (e, read_file) tt
    | inr (inl e) ↦ rw (e, read_file) tt
    | inr (inr (f, e)) ↦ rw (e, read_file) (f, refl, refl)
  ]

  read_json-Returns : (p label : String) → Returns (λ (v, entry). Unit) (read_json io p label)
  unfolding read_json
  read_json-Returns p label =
      bind-Returns
        (λ (text, entry). (f : File) × (read_bytes p ≡ contents f) × (entry.path ≡ f.path))
        (λ (v, entry). Unit) (read_file io p label) _ (read_file-Returns p label)
        (λ (text, entry) q e. elim (Option-cases text) [
          | inl e ↦ rw e tt
          | inr (t, e) ↦ rw e (
              bind-Returns (λ v. Unit) (λ (v, entry). Unit) (load_json io t) _ (load_json-Returns t)
                (λ v q e. tt))
        ])

  with_state-Returns :
      (args : Args) (body : Fields) → Returns (λ (fs, es). AtMostOne es) (with_state io args body)
  unfolding with_state
  with_state-Returns args body = elim (Option-cases args.state_json) [
    | inr (text, e) ↦
        rw (e, with_state)
          (bind-Returns (λ v. Unit) (λ (fs, es). AtMostOne es) (load_json io text) _
            (load_json-Returns text) (λ v q e. tt))
    | inl e ↦ elim (Option-cases args.state_file) [
      | inl e' ↦ rw (e, e', with_state) tt
      | inr (p, e') ↦
          rw (e, e', with_state)
            (bind-Returns (λ (v, entry). Unit) (λ (fs, es). AtMostOne es)
              (read_json io p "state_file") _ (read_json-Returns p "state_file") (λ r q e. tt))
    ]
  ]

  body_with-Returns :
      (args : Args) (kind question : String)
      → Returns (λ (v, es). AtMostOne es) (body_with io args kind question)
  unfolding body_with
  body_with-Returns args kind question =
      elim (Bool-cases (is_given args.state_json && is_given args.state_file)) [
        | inl e ↦ rw (e, body_with) tt
        | inr e ↦
            rw (e, body_with)
              (bind-Returns {A = Fields × List Entry} {B = Value × List Entry}
                (λ (fs, es). AtMostOne es) (λ (v, es). AtMostOne es)
                (with_state io args
                  (field "kind" (Value.str kind) (field "question" (Value.str question) end)))
                _
                (with_state-Returns args
                  (field "kind" (Value.str kind) (field "question" (Value.str question) end)))
                (λ r q e. q))
      ]

  body_of_args-Returns : (args : Args) → Returns (λ (v, es). AtMostOne es) (body_of_args io args)
  unfolding body_of_args
  body_of_args-Returns args = elim (Option-cases args.kind) [
    | inl e ↦ rw (e, body_of_args) tt
    | inr (kind, e) ↦ elim (Option-cases args.question) [
      | inl e' ↦
          rw (e, e', body_of_args) (if-Returns (λ (v, es). AtMostOne es) (kind == "") _ _ tt tt)
      | inr (question, e') ↦
          rw (e, e', body_of_args)
            (if-Returns (λ (v, es). AtMostOne es) (kind == "") _ _ tt
              (body_with-Returns args kind question))
    ]
  ]

  body_of_stdin-Returns : Returns (λ (v, es). AtMostOne es) (body_of_stdin io)
  unfolding body_of_stdin
  body_of_stdin-Returns = elim (Option-cases stdin) [
    | inl e ↦ rw (e, body_of_stdin) tt
    | inr (text, e) ↦
        rw (e, body_of_stdin)
          (bind-Returns {A = Value} {B = Value × List Entry} (λ v. Unit) (λ (v, es). AtMostOne es)
            (load_json io text) _ (load_json-Returns text) (λ v q e. tt))
  ]

  body_of_file-Returns : (p : String) → Returns (λ (v, es). AtMostOne es) (body_of_file io p)
  unfolding body_of_file
  body_of_file-Returns p =
      if-Returns (λ (v, es). AtMostOne es) (p == "-") _ _ body_of_stdin-Returns
        (bind-Returns (λ (v, entry). Unit) (λ (v, es). AtMostOne es) (read_json io p "request_file")
          _ (read_json-Returns p "request_file") (λ r q e. tt))

  pub body_of-Returns : (args : Args) → Returns (λ (v, es). AtMostOne es) (body_of io args)
  unfolding body_of
  body_of-Returns args = elim (Option-cases args.request_file) [
    | inl e ↦ rw (e, body_of) (body_of_args-Returns args)
    | inr (p, e) ↦
        rw (e, body_of)
          (if-Returns (λ (v, es). AtMostOne es) (given (some p)) _ _ (body_of_file-Returns p)
            (body_of_args-Returns args))
  ]
