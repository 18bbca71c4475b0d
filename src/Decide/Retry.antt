-- ===== src/Decide/Retry.antt =====
-- `request_json`: one request, with a bounded number of retries.
use vllm_production_stack_cu.Base.{
  ℕ, zero, suc, ◌+◌, ◌^◌, ◌≤◌, ◌<◌, ◌≡◌, refl, Bool, true, false, ◌&&◌, not, Option, none, some,
  List, [], ◌∷◌, ◌++◌, arith, length, length-append, eqb, nat_eq, if◌then◌else◌, Bool-cases, inl,
  inr, ◌⊎◌,
}
use vllm_production_stack_cu.Base.Dict.{mem}
use vllm_production_stack_cu.Base.Floats.{Floats}
use vllm_production_stack_cu.Base.Json.{Value, Fields}

-- what opening the url gives: an HTTPError with its code; an HTTPError whose body cannot be read, an
-- OSError in the handler; a URLError, TimeoutError or OSError; another exception, of http.client or of
-- a body that is no UTF-8; or a body that can be decoded, `none` if it is no JSON
pub data Answer : Type 0 where
  http_error : ℕ → Answer
  broken_error : Answer
  connection_error : Answer
  other_exception : Answer
  response : Option Value → Answer

pub data RequestError : Type 0 where
  upstream_http : ℕ → RequestError
  upstream_connection : RequestError
  invalid_json : RequestError
  not_object : RequestError

-- The result with the number of attempts; a ClientError with it; an OSError of the handler; or an
-- exception that `main` does not catch, the AssertionError at the end among them.
pub data Outcome : Type 0 where
  done : Fields → ℕ → Outcome
  failed : RequestError → ℕ → Outcome
  os_error : Outcome
  escaped : Outcome
  assertion_error : Outcome

abbrev pub retryable_http_statuses : List ℕ
retryable_http_statuses = 408 ∷ 425 ∷ 429 ∷ 500 ∷ 502 ∷ 503 ∷ 504 ∷ []

-- an answer after which the loop may go on
unfoldable pub is_retryable : Answer → Bool
is_retryable (http_error code) = mem code retryable_http_statuses
is_retryable broken_error = false
is_retryable connection_error = true
is_retryable other_exception = false
is_retryable (response body) = false

-- what an answer ends the loop with
unfoldable pub conclude : Answer → ℕ → Outcome
conclude (http_error code) attempts = failed (upstream_http code) attempts
conclude broken_error attempts = os_error
conclude connection_error attempts = failed upstream_connection attempts
conclude other_exception attempts = escaped
conclude (response none) attempts = failed invalid_json attempts
conclude (response (some (Value.obj fields))) attempts = done fields attempts
conclude (response (some _)) attempts = failed not_object attempts

-- The answers before the given one are all retryable.
abbrev pub AllRetryable : (ℕ → Answer) → ℕ → Type 0
AllRetryable answers zero = Unit
AllRetryable answers (suc n) = AllRetryable answers n × (is_retryable (answers n) ≡ true)

stops :
    (a : Answer) (i m : ℕ)
    → (is_retryable a && not (eqb i m)) ≡ false
    → (is_retryable a ≡ false) ⊎ (i ≡ m)
stops a i m e = elim (Bool-cases (is_retryable a)) [
  | inl t ↦ inr (ground (arith, e, t))
  | inr f ↦ inl f
]

module _ (fl : Floats) where
  open fl use {F, of_ℕ, mul, lt, truthy}

  -- min(backoff * (2**retry_index), 10)
  unfoldable pub delay : F → ℕ → F
  delay backoff retry_index =
      let d = mul backoff (of_ℕ (2 ^ retry_index)) in if lt (of_ℕ 10) d then of_ℕ 10 else d

  -- `if backoff: time.sleep(...)`
  unfoldable pub sleeps : F → ℕ → List F
  unfolding delay
  sleeps backoff retry_index = if truthy backoff then delay backoff retry_index ∷ [] else []

  -- The rounds that are left of `range(max_retries + 1)`, from the given index, with the answers of
  -- the attempts. The times slept come with the outcome.
  unfoldable pub request_loop : (ℕ → Answer) → ℕ → F → ℕ → ℕ → List F → Outcome × List F
  unfolding is_retryable conclude sleeps
  request_loop answers max_retries backoff zero retry_index slept = (assertion_error, slept)
  request_loop answers max_retries backoff (suc left) retry_index slept =
      elim (is_retryable (answers retry_index) && not (eqb retry_index max_retries)) [
        | true ↦
            request_loop answers max_retries backoff left (suc retry_index)
              (slept ++ sleeps backoff retry_index)
        | false ↦ (conclude (answers retry_index) (suc retry_index), slept)
      ]

  unfoldable pub request_json : (ℕ → Answer) → ℕ → F → Outcome × List F
  unfolding request_loop
  request_json answers max_retries backoff =
      request_loop answers max_retries backoff (max_retries + 1) 0 []

  -- The call ended with the answer of the last attempt, after retryable answers, and slept between
  -- the attempts only.
  pub record IsConcluded (answers : ℕ → Answer) (max_retries : ℕ) (result : Outcome × List F)
      : Type 0 where
    pub last : ℕ
    pub in_bounds : last ≤ max_retries
    pub outcome : result.0 ≡ conclude (answers last) (suc last)
    pub conclusive : (is_retryable (answers last) ≡ false) ⊎ (last ≡ max_retries)
    pub earlier : AllRetryable answers last
    pub pauses : length result.1 ≤ last

  sleeps-length : (backoff : F) (i : ℕ) → length (sleeps backoff i) ≤ 1
  unfolding sleeps
  sleeps-length backoff i = ground arith

  request_loop-IsConcluded :
      (answers : ℕ → Answer) (max_retries : ℕ) (backoff : F) (left i : ℕ) (slept : List F)
      → i + left ≡ max_retries + 1
      → 0 < left
      → AllRetryable answers i
      → length slept ≤ i
      → IsConcluded answers max_retries (request_loop answers max_retries backoff left i slept)
  unfolding request_loop
  request_loop-IsConcluded answers m backoff zero i slept e pos before few = absurd (omega arith)
  request_loop-IsConcluded answers m backoff (suc left) i slept e pos before few =
      elim (Bool-cases (is_retryable (answers i) && not (eqb i m))) [
        | inl more ↦
            rw (more, request_loop)
              (request_loop-IsConcluded answers m backoff left (suc i) (slept ++ sleeps backoff i)
                (omega (arith, e)) (ground (arith, e, more)) (before, ground (arith, more))
                (omega (
                  arith,
                  length-append {0} slept (sleeps backoff i),
                  sleeps-length backoff i,
                  few,
                )))
        | inr stop ↦
            rw (stop, request_loop)
              (record {
                last = i;
                in_bounds = omega arith;
                outcome = refl;
                conclusive = stops (answers i) i m stop;
                earlier = before;
                pauses = few;
              })
      ]

  pub request_json-IsConcluded :
      (answers : ℕ → Answer) (max_retries : ℕ) (backoff : F)
      → IsConcluded answers max_retries (request_json answers max_retries backoff)
  unfolding request_json
  request_json-IsConcluded answers max_retries backoff =
      request_loop-IsConcluded answers max_retries backoff (max_retries + 1) 0 [] (omega arith)
        (omega arith) tt (omega arith)
