-- ===== src/Requests/Prefill/Stages.antt =====
-- What the two stages of a disaggregated request get, and what comes back.
use vllm_production_stack_cu.Base.{
  ℕ, String, ◌≡◌, refl, ap, ◌∙◌, Bool, true, false, Bool-cases, Option, none, some, List, [], ◌∷◌,
  ◌++◌, map, arith, ◌==◌, string_eq, if◌then◌else◌, ◌⊎◌, inl, inr, Option-cases,
}
use vllm_production_stack_cu.Base.Json.{Value, Fields, find, find_or, assign, find-assign}
use vllm_production_stack_cu.Requests.Prefill.{
  prefiller, decoder, Post, Failure, http_error, other_error, prefiller_error, decoder_error, Piece,
  stream_reply, Stream, chunk, streaming, Reply, request_id_of, prefill_data, prefill_failed,
  decode_failed, generate_stream, decode_data, route_disaggregated_prefill_request,
}

-- The prefiller is to make one token, in either spelling, of a request that is otherwise the same.
abbrev pub IsPrefillOf : Fields → Fields → Type 0
IsPrefillOf request_json body =
    (find "max_tokens" body ≡ some (Value.num 1))
    × (find "max_completion_tokens" body ≡ elim (find "max_completion_tokens" request_json) [
      | none ↦ none
      | some v ↦ some (Value.num 1)
    ])
    × ((k : String)
        → (k == "max_tokens") ≡ false
        → (k == "max_completion_tokens") ≡ false
        → find k body ≡ find k request_json)

-- The decoder gets the request as it came, where a missing "max_tokens" is 0.
abbrev pub IsDecodeOf : Fields → Fields → Type 0
IsDecodeOf request_json body =
    (k : String)
    → find k body ≡ (
        if k == "max_tokens"
        then some (find_or "max_tokens" (Value.num 0) request_json)
        else find k request_json)

find-assign_twice :
    (k j : String) (v w : Value) (fs : Fields)
    → find j (assign k v (assign k w fs)) ≡ (if k == j then some v else find j fs)
find-assign_twice k j v w fs =
    ground (arith, find-assign k j v (assign k w fs), find-assign k j w fs)

-- what the prefiller gets under each key
find-prefill_data :
    (k : String) (fs : Fields)
    → find k (prefill_data (assign "max_tokens" (Value.num 1) fs)) ≡ (
        if "max_completion_tokens" == k
        then elim (find k fs) [ none ↦ none | some v ↦ some (Value.num 1) ]
        else if "max_tokens" == k
        then some (Value.num 1)
        else find k fs)
unfolding prefill_data
find-prefill_data k fs =
    let one = Value.num 1 in
    let data' = assign "max_tokens" one (assign "max_tokens" one fs) in
    let here = find-assign_twice "max_tokens" "max_completion_tokens" one one fs in
    let other = find-assign_twice "max_tokens" k one one fs in
    elim (Option-cases (find "max_completion_tokens" fs)) [
      | inl e ↦
          let absent : find "max_completion_tokens" data' ≡ none = here ∙ e in
          rw (absent, prefill_data) ground
            (arith, other, string_eq.same_iff "max_completion_tokens" k)
      | inr (v, e) ↦
          let present : find "max_completion_tokens" data' ≡ some v = here ∙ e in
          rw (present, prefill_data) ground
            (
              arith,
              find-assign "max_completion_tokens" k one data',
              other,
              string_eq.same_iff "max_completion_tokens" k,
            )
    ]

prefill_data-IsPrefillOf :
    (fs : Fields) → IsPrefillOf fs (prefill_data (assign "max_tokens" (Value.num 1) fs))
prefill_data-IsPrefillOf fs = (
  find-prefill_data "max_tokens" fs,
  find-prefill_data "max_completion_tokens" fs,
  λ k a b. ground (
    arith,
    find-prefill_data k fs,
    string_eq.same_iff k "max_tokens",
    string_eq.same_iff "max_tokens" k,
    string_eq.same_iff k "max_completion_tokens",
    string_eq.same_iff "max_completion_tokens" k,
  ),
)

decode_data-IsDecodeOf : (fs : Fields) → IsDecodeOf fs (decode_data fs)
unfolding decode_data
decode_data-IsDecodeOf fs k = ground (
  arith,
  string_eq.same_iff k "max_tokens",
  string_eq.same_iff "max_tokens" k,
  find-assign "max_tokens" k (find_or "max_tokens" (Value.num 0) fs)
      (assign "max_tokens" (Value.num 1) fs),
  find-assign "max_tokens" k (Value.num 1) fs,
)

-- what the router answers when the prefiller fails: an HTTP error with its status, any other with 500
abbrev pub IsPrefillError : Failure → Option Reply → Type 0
IsPrefillError (http_error status message) reply =
    (id : String) × (reply
      ≡ some (record { answer = prefiller_error status message; request_id = id }))
IsPrefillError (other_error text) reply =
    (id : String) × (reply ≡ some (record { answer = prefiller_error 500 text; request_id = id }))

-- what ends the stream when the decoder breaks off
abbrev pub broken_off : Option Failure → List Piece
broken_off none = []
broken_off (some (http_error status message)) = decoder_error message status ∷ []
broken_off (some (other_error text)) = decoder_error text 500 ∷ []

prefill_failed-IsPrefillError :
    (failure : Failure) (id : String)
    → IsPrefillError failure (some (record { answer = prefill_failed failure; request_id = id }))
unfolding prefill_failed
prefill_failed-IsPrefillError (http_error status message) id = (id, refl)
prefill_failed-IsPrefillError (other_error text) id = (id, refl)

generate_stream-broken_off :
    (chunks : List (List ℕ)) (failure : Option Failure)
    → generate_stream chunks failure ≡ map chunk chunks ++ broken_off failure
unfolding generate_stream decode_failed
generate_stream-broken_off [] none = refl
generate_stream-broken_off [] (some (http_error status message)) = refl
generate_stream-broken_off [] (some (other_error text)) = refl
generate_stream-broken_off (c ∷ chunks) failure =
    ap (λ r. chunk c ∷ r) (generate_stream-broken_off chunks failure)

module _ (prefill : Post → Option Failure) (decode : Post → Stream) (has_decode_client : Bool) where
  -- the three ways in which a request goes
  abbrev pub IsAnswered : String → Fields → List Post × Option Reply → Type 0
  IsAnswered endpoint request_json (posts, reply) =
      (first : Post) × (first.client ≡ prefiller)
      × (first.endpoint ≡ endpoint)
      × IsPrefillOf request_json first.body
      × (((failure : Failure) × (prefill first ≡ some failure)
            × (posts ≡ first ∷ [])
            × IsPrefillError failure reply)
          ⊎ ((prefill first ≡ none)
              × (has_decode_client ≡ false)
              × (posts ≡ first ∷ [])
              × (reply ≡ none))
          ⊎ ((second : Post) × (prefill first ≡ none)
              × (has_decode_client ≡ true)
              × (posts ≡ first ∷ second ∷ [])
              × (second.client ≡ decoder)
              × (second.endpoint ≡ endpoint)
              × (second.request_id ≡ first.request_id)
              × IsDecodeOf request_json second.body
              × (reply
                  ≡ some (record {
                    answer =
                        streaming
                          (map chunk (decode second).chunks ++ broken_off (decode second).failure);
                    request_id = first.request_id;
                  }))))

  -- Each request is first sent to the prefiller, to make one token of it. If that fails, nothing
  -- more is sent and the answer is an error, with the status of an HTTP error or else with 500. If
  -- it is good and the app has no client of a decoder, nothing more is sent and the call raises.
  -- Else the decoder gets the request as it came, but for a missing "max_tokens", which becomes 0,
  -- and the answer is all chunks of the decoder in order, with an error object at the end if it
  -- breaks off, which has the status of an HTTP error or else 500.
  pub route_disaggregated_prefill_request-IsAnswered :
      (header : Option String) (fresh endpoint : String) (request_json : Fields)
      → IsAnswered endpoint request_json (
          route_disaggregated_prefill_request prefill decode has_decode_client header fresh endpoint
            request_json)
  unfolding route_disaggregated_prefill_request stream_reply
  route_disaggregated_prefill_request-IsAnswered header fresh endpoint request_json =
      let first : Post = record {
        client = prefiller;
        endpoint = endpoint;
        body = prefill_data (assign "max_tokens" (Value.num 1) request_json);
        request_id = request_id_of header fresh;
      } in
      let second : Post = record first { client = decoder; body = decode_data request_json } in
      let s = decode second in
      let is_prefill = prefill_data-IsPrefillOf request_json in
      elim (Option-cases (prefill first)) [
        | inr (failure, bad) ↦
            rw (bad, route_disaggregated_prefill_request)
              (
                first,
                refl,
                refl,
                is_prefill,
                inl (
                  failure,
                  bad,
                  refl,
                  prefill_failed-IsPrefillError failure (request_id_of header fresh),
                ),
              )
        | inl good ↦ elim (Bool-cases has_decode_client) [
          | inr lost ↦
              rw (good, lost, route_disaggregated_prefill_request)
                (first, refl, refl, is_prefill, inr (inl (good, refl, refl, refl)))
          | inl ready ↦
              rw (good, ready, route_disaggregated_prefill_request)
                (
                  first,
                  refl,
                  refl,
                  is_prefill,
                  inr (
                      inr (
                        second,
                        good,
                        refl,
                        refl,
                        refl,
                        refl,
                        refl,
                        decode_data-IsDecodeOf request_json,
                        ap
                            (λ pieces. some (record {
                              answer = streaming pieces;
                              request_id = request_id_of header fresh;
                            }))
                            (generate_stream-broken_off s.chunks s.failure),
                      )),
                )
        ]
      ]
