-- ===== src/Decide/Validate.antt =====
-- `validate` and `endpoint` of skills/jev-decide/scripts/decide.py.
use vllm_production_stack_cu.Base.{
  ℕ, zero, suc, String, Bool, true, false, ◌&&◌, ◌||◌, not, Option, none, some, List, [], ◌∷◌, ◌++◌,
  eqb, leb, ◌==◌, string_eq, if◌then◌else◌,
}
use vllm_production_stack_cu.Base.Dict.{mem}
use vllm_production_stack_cu.Decide.Retry.{RequestError}
use vllm_production_stack_cu.Base.Text.{same_text}
use vllm_production_stack_cu.Base.Json.{Value, Items, Fields, nil, item, end, field, find}

-- The errors that `main` catches, without their texts: ClientErrors, and the OSError of an output
-- that is closed.
pub data ClientError : Type 0 where
  base_url_required base_url_not_absolute base_url_with_parts : ClientError
  not_an_object unknown_fields bad_kind bad_question bad_options options_not_valid bad_threshold :
      ClientError
  invalid_json unreadable_file not_utf8 : ClientError
  kind_and_question_required two_states info_with_inputs : ClientError
  not_numeric not_finite out_of_range : ClientError
  upstream : RequestError → ClientError
  audit_refused broken_output broken_answer : ClientError

-- A call returns, raises a ClientError, or raises another exception.
pub data Result {ℓ} (A : Type ℓ) : Type ℓ where
  ok : A → Result A
  client_error : ClientError → Result A
  crashed : Result A

abbrev pub bind {ℓ κ} : {A : Type ℓ} {B : Type κ} → Result A → (A → Result B) → Result B
bind (ok a) f = f a
bind (client_error e) f = client_error e
bind crashed f = crashed

abbrev pub request_fields : List String
request_fields =
    "kind" ∷ "state" ∷ "question" ∷ "options" ∷ "strategy" ∷ "thinking" ∷ "threshold"
    ∷ "think_budget" ∷ "reasoning_effort" ∷ "chat_template_kwargs" ∷ "return_reasoning" ∷ "debug"
    ∷ "system2_only" ∷ []

abbrev pub kinds : List String
kinds = "choice" ∷ "noul" ∷ "score" ∷ []

-- not (set(body) - FIELDS)
unfoldable pub all_known : Fields → Bool
all_known end = true
all_known (field k v fs) = mem k request_fields && all_known fs

unfoldable pub items_length : Items → ℕ
items_length nil = zero
items_length (item v is) = suc (items_length is)

-- all items are texts that are not empty
unfoldable pub all_texts : Items → Bool
all_texts nil = true
all_texts (item (Value.str s) is) = not (s == "") && all_texts is
all_texts (item v is) = false

-- the options of a choice
unfoldable pub good_options : Option Value → Bool
unfolding items_length all_texts
good_options (some (Value.arr is)) =
    leb 2 (items_length is) && leb (items_length is) 256 && all_texts is
good_options _ = false

-- missing or null
abbrev pub is_none : Option Value → Bool
is_none none = true
is_none (some Value.null) = true
is_none (some v) = false

-- whether a kind is a known one; a list or an object is a TypeError
unfoldable pub known_kind : Option Value → Result String
known_kind (some (Value.str k)) = if mem k kinds then ok k else client_error bad_kind
known_kind (some (Value.arr is)) = crashed
known_kind (some (Value.obj fs)) = crashed
known_kind _ = client_error bad_kind

-- `is_finite` is math.isfinite on a number, `none` for an OverflowError; `blank` tells that nothing is
-- left of a text by str.strip.
module _ (is_finite : Value → Option Bool) (blank : String → Bool) where
  unfoldable pub good_question : Option Value → Bool
  good_question (some (Value.str q)) = not (blank q)
  good_question _ = false

  unfoldable pub finite : Value → Result (Unit {0})
  finite v = elim (is_finite v) [
    | none ↦ crashed
    | some b ↦ if b then ok tt else client_error bad_threshold
  ]

  unfoldable pub check_threshold : Option Value → Result (Unit {0})
  unfolding finite
  check_threshold none = ok tt
  check_threshold (some Value.null) = ok tt
  check_threshold (some (Value.num n)) = finite (Value.num n)
  check_threshold (some (Value.real s)) = finite (Value.real s)
  check_threshold (some v) = client_error bad_threshold

  unfoldable pub check_options : String → Option Value → Result (Unit {0})
  unfolding good_options
  check_options kind options =
      if kind == "choice"
      then (if good_options options then ok tt else client_error bad_options)
      else if is_none options
      then ok tt
      else client_error options_not_valid

  unfoldable pub validate_fields : Fields → Result Fields
  unfolding all_known known_kind good_question check_options check_threshold
  validate_fields body =
      if all_known body
      then bind (known_kind (find "kind" body)) (λ kind.
        if good_question (find "question" body)
        then bind (check_options kind (find "options" body))
            (λ _. bind (check_threshold (find "threshold" body)) (λ _. ok body))
        else client_error bad_question)
      else client_error unknown_fields

  unfoldable pub validate : Value → Result Fields
  unfolding validate_fields
  validate (Value.obj body) = validate_fields body
  validate v = client_error not_an_object

-- what urlsplit gives
pub record SplitUrl : Type 0 where
  pub scheme : String
  pub netloc : String
  pub path : List ℕ
  pub has_user : Bool
  pub has_query_or_fragment : Bool

-- "/"
abbrev pub slash : ℕ
slash = 47

-- path.rstrip("/")
unfoldable pub rstrip : List ℕ → List ℕ
rstrip [] = []
rstrip (x ∷ xs) = elim (rstrip xs) [ [] ↦ if eqb x slash then [] else x ∷ [] | y ∷ ys ↦ x ∷ y ∷ ys ]

-- the text in front of a suffix, `none` if it does not end so
unfoldable pub before_suffix : List ℕ → List ℕ → Option (List ℕ)
unfolding same_text
before_suffix suffix [] = if same_text [] suffix then some [] else none
before_suffix suffix (x ∷ xs) =
    let rest = before_suffix suffix xs in
    if same_text (x ∷ xs) suffix
    then some []
    else (elim rest [ none ↦ none | some front ↦ some (x ∷ front) ])

-- "/v1", "/v1/decide" and "/v1/decide/info"
abbrev pub v1_suffix : List ℕ
v1_suffix = 47 ∷ 118 ∷ 49 ∷ []

abbrev pub decide_suffix : List ℕ
decide_suffix = v1_suffix ++ (47 ∷ 100 ∷ 101 ∷ 99 ∷ 105 ∷ 100 ∷ 101 ∷ [])

abbrev pub info_suffix : List ℕ
info_suffix = decide_suffix ++ (47 ∷ 105 ∷ 110 ∷ 102 ∷ 111 ∷ [])

unfoldable pub base_path : List ℕ → List ℕ
unfolding rstrip before_suffix
base_path path =
    let stripped = rstrip path in
    elim (before_suffix decide_suffix stripped) [
      | some front ↦ front
      | none ↦ elim (before_suffix v1_suffix stripped) [ some front ↦ front | none ↦ stripped ]
    ]

unfoldable pub endpoint_path : Bool → List ℕ → List ℕ
unfolding base_path
endpoint_path info path = base_path path ++ (if info then info_suffix else decide_suffix)

-- `urlsplit` is `none` for a ValueError; `urlunsplit` puts scheme, netloc and path together.
module _ (urlsplit : String → Option SplitUrl)
    (urlunsplit : String → String → List ℕ → String) where
  unfoldable pub endpoint : String → Bool → Result String
  unfolding endpoint_path
  endpoint base_url info =
      if base_url == "" then client_error base_url_required else (elim (urlsplit base_url) [
        | none ↦ crashed
        | some parsed ↦
            if not (mem parsed.scheme ("http" ∷ "https" ∷ [])) || (parsed.netloc == "")
            then client_error base_url_not_absolute
            else if parsed.has_user || parsed.has_query_or_fragment
            then client_error base_url_with_parts
            else ok (urlunsplit parsed.scheme parsed.netloc (endpoint_path info parsed.path))
      ])
