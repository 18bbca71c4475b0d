-- ===== src/Decide/Results.antt =====
-- Properties of the calls that return, for the functions of skills/jev-decide/scripts/decide.py.
use vllm_production_stack_cu.Base.{
  ◌≡◌, ◌⊎◌, inl, inr, refl, Bool, true, false, if◌then◌else◌, Option, String, sym, subst,
}
use vllm_production_stack_cu.Base.Json.{Value, Fields, find}
use vllm_production_stack_cu.Decide.Validate.{
  ClientError, validate, validate_fields, all_known, known_kind, check_options, check_threshold,
  good_question, bad_question, Result, ok, client_error, crashed, bind,
}

pub Result-cases :
    {A : Type 0} (r : Result A)
    → (((e : ClientError) × (r ≡ client_error e)) ⊎ (r ≡ crashed)) ⊎ ((a : A) × (r ≡ ok a))
Result-cases (ok a) = inr (a, refl)
Result-cases (client_error e) = inl (inl (e, refl))
Result-cases crashed = inl (inr refl)

-- A call that returns gives a value with the property.
abbrev pub Returns : {A : Type 0} → (A → Type 0) → Result A → Type 0
Returns P (ok a) = P a
Returns P (client_error e) = Unit
Returns P crashed = Unit

pub bind-Returns :
    {A B : Type 0} (Q : A → Type 0) (P : B → Type 0) (r : Result A) (f : A → Result B)
    → Returns Q r
    → ((a : A) → Q a → r ≡ ok a → Returns P (f a))
    → Returns P (bind r f)
bind-Returns Q P (ok a) f q g = g a q refl
bind-Returns Q P (client_error e) f q g = tt
bind-Returns Q P crashed f q g = tt

pub Returns-map :
    {A : Type 0} (P Q : A → Type 0) (r : Result A)
    → ((a : A) → P a → Q a)
    → Returns P r
    → Returns Q r
Returns-map P Q (ok a) g x = g a x
Returns-map P Q (client_error e) g x = tt
Returns-map P Q crashed g x = tt

pub if-Returns :
    {A : Type 0} (P : A → Type 0) (b : Bool) (r s : Result A)
    → Returns P r
    → Returns P s
    → Returns P (if b then r else s)
if-Returns P true r s x y = x
if-Returns P false r s x y = y

pub Returns-keep :
    {A : Type 0} (P Q : A → Type 0) (r : Result A)
    → ((a : A) → P a → r ≡ ok a → Q a)
    → Returns P r
    → Returns Q r
Returns-keep P Q (ok a) g x = g a x refl
Returns-keep P Q (client_error e) g x = tt
Returns-keep P Q crashed g x = tt

-- nothing is said of the value
pub Returns-any : {A : Type 0} (r : Result A) → Returns (λ a. Unit) r
Returns-any (ok a) = tt
Returns-any (client_error e) = tt
Returns-any crashed = tt

module _ (is_finite : Value → Option Bool) (blank : String → Bool) where
  validate_fields-Returns :
      (body : Fields) → Returns (λ out. out ≡ body) (validate_fields is_finite blank body)
  unfolding validate_fields
  validate_fields-Returns body =
      if-Returns (λ out. out ≡ body) (all_known body) _ _
        (bind-Returns (λ k. Unit) (λ out. out ≡ body) (known_kind (find "kind" body)) _
          (Returns-any _)
          (λ kind q e.
            if-Returns (λ out. out ≡ body) (good_question is_finite blank (find "question" body))
              (bind (check_options is_finite blank kind (find "options" body)) (λ x.
                bind (check_threshold is_finite blank (find "threshold" body)) (λ y. ok body)))
              (client_error bad_question)
              (bind-Returns (λ k. Unit) (λ out. out ≡ body)
                (check_options is_finite blank kind (find "options" body)) _ (Returns-any _)
                (λ x q e.
                  bind-Returns (λ k. Unit) (λ out. out ≡ body)
                    (check_threshold is_finite blank (find "threshold" body)) (λ y. ok body)
                    (Returns-any _) (λ y q e. refl)))
              tt))
        tt

  pub validate-Returns :
      (v : Value)
      → Returns
          (λ body. validate is_finite blank (Value.obj body) ≡ ok body)
          (validate is_finite blank v)
  unfolding validate
  validate-Returns (Value.obj fs) =
      Returns-keep (λ out. out ≡ fs) (λ out. validate_fields is_finite blank out ≡ ok out)
        (validate_fields is_finite blank fs)
        (λ out same e. subst (λ x. validate_fields is_finite blank x ≡ ok out) (sym same) e)
        (validate_fields-Returns fs)
  validate-Returns v = tt
