-- ===== src/Requests/Prefill.antt =====
-- `route_disaggregated_prefill_request` of src/vllm_router/services/request_service/request.py: a
-- request that is sent to a prefiller and then to a decoder.
pub mod Stages
mod Tests
use vllm_production_stack_cu.Base.{
  ℕ, String, ◌≡◌, refl, ap, ◌∙◌, Bool, true, false, Option, none, some, List, [], ◌∷◌, ◌++◌, map,
  arith, ◌==◌, string_eq, if◌then◌else◌, ◌⊎◌, inl, inr, Option-cases,
}
use vllm_production_stack_cu.Base.Json.{Value, Fields, find, find_or, assign, find-assign}

pub data Stage : Type 0 where
  prefiller decoder : Stage

-- one POST, by the client of a stage
pub record Post : Type 0 where
  pub client : Stage
  pub endpoint : String
  pub body : Fields
  pub request_id : String

-- a ClientResponseError with its status and message, or another exception with its text
pub data Failure : Type 0 where
  http_error : ℕ → String → Failure
  other_error : String → Failure

-- the chunks of an answer, and what it breaks off with
pub record Stream : Type 0 where
  pub chunks : List (List ℕ)
  pub failure : Option Failure

-- A piece of what is streamed to the client: a chunk, or the JSON object of an error, with the text
-- behind "Decoder error: " and the code.
pub data Piece : Type 0 where
  chunk : List ℕ → Piece
  decoder_error : String → ℕ → Piece

-- A JSON answer with an error, with its status and the text behind "Prefiller error: "; or a stream
-- with status 200.
pub data Answer : Type 0 where
  prefiller_error : ℕ → String → Answer
  streaming : List Piece → Answer

-- the answer with its header X-Request-Id
pub record Reply : Type 0 where
  pub answer : Answer
  pub request_id : String

-- request.headers.get("X-Request-Id") or str(uuid.uuid4())
unfoldable pub request_id_of : Option String → String → String
request_id_of none fresh = fresh
request_id_of (some id) fresh = if id == "" then fresh else id

-- the body that `send_request_to_prefiller` makes of its copy
unfoldable pub prefill_data : Fields → Fields
prefill_data req_data =
    let data' = assign "max_tokens" (Value.num 1) req_data in
    elim (find "max_completion_tokens" data') [
      | none ↦ data'
      | some v ↦ assign "max_completion_tokens" (Value.num 1) data'
    ]

unfoldable pub prefill_failed : Failure → Answer
prefill_failed (http_error status message) = prefiller_error status message
prefill_failed (other_error text) = prefiller_error 500 text

unfoldable pub decode_failed : Failure → Piece
decode_failed (http_error status message) = decoder_error message status
decode_failed (other_error text) = decoder_error text 500

unfoldable pub generate_stream : List (List ℕ) → Option Failure → List Piece
unfolding decode_failed
generate_stream [] none = []
generate_stream [] (some failure) = decode_failed failure ∷ []
generate_stream (c ∷ chunks) failure = chunk c ∷ generate_stream chunks failure

-- the body for the decoder, after that for the prefiller has been built in the same dictionary
unfoldable pub decode_data : Fields → Fields
decode_data request_json =
    assign "max_tokens" (find_or "max_tokens" (Value.num 0) request_json)
      (assign "max_tokens" (Value.num 1) request_json)

-- The decoder is asked when the stream is read, after the request was logged with its address.
unfoldable pub stream_reply : String → Stream → Reply
unfolding generate_stream
stream_reply request_id s = record {
  answer = streaming (generate_stream s.chunks s.failure);
  request_id = request_id;
}

-- `prefill` and `decode` are the answers of the engines behind the two clients, that of a prefiller
-- being `none` if it is good; without a client of the prefiller it is an AttributeError.
-- `has_decode_client` tells whether the app has a client of the decoder after the prefilling.
module _ (prefill : Post → Option Failure) (decode : Post → Stream) (has_decode_client : Bool) where
  -- The requests that are sent, and the reply, `none` for the AttributeError of `_base_url`; a body
  -- is taken as the JSON object that it holds.
  unfoldable pub route_disaggregated_prefill_request :
      Option String → String → String → Fields → List Post × Option Reply
  unfolding request_id_of prefill_data decode_data prefill_failed stream_reply
  route_disaggregated_prefill_request header fresh endpoint request_json =
      let request_id = request_id_of header fresh in
      let first : Post = record {
        client = prefiller;
        endpoint = endpoint;
        body = prefill_data (assign "max_tokens" (Value.num 1) request_json);
        request_id = request_id;
      } in
      let second : Post = record {
        client = decoder;
        endpoint = endpoint;
        body = decode_data request_json;
        request_id = request_id;
      } in
      elim (prefill first) [
        | some failure ↦
            (first ∷ [], some (record { answer = prefill_failed failure; request_id = request_id }))
        | none ↦
            if has_decode_client
            then (first ∷ second ∷ [], some (stream_reply request_id (decode second)))
            else (first ∷ [], none)
      ]
