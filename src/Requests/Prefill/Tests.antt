-- ===== src/Requests/Prefill/Tests.antt =====
-- A request of 40 tokens through both stages.
use vllm_production_stack_cu.Base.{Option, ◌≡◌, refl, true, none, some, [], ◌∷◌, string_eq}
use vllm_production_stack_cu.Base.Json.{Value, Fields, end, field}
use vllm_production_stack_cu.Requests.Prefill.{
  Post, Failure, Stream, streaming, chunk, decoder_error, http_error, stream_reply,
  route_disaggregated_prefill_request,
}
use vllm_production_stack_cu.Requests.Prefill.Stages.{
  IsAnswered, route_disaggregated_prefill_request-IsAnswered,
}

abbrev body : Fields
body = field "model" (Value.str "m") (field "max_tokens" (Value.num 40) end)

abbrev good : Post → Option Failure
good post = none

-- the decoder breaks off after a chunk
abbrev breaks_off : Post → Stream
breaks_off post = record { chunks = (104 ∷ 105 ∷ []) ∷ []; failure = some (http_error 502 "bad") }

answer_run :
    (route_disaggregated_prefill_request good breaks_off true none "id" "/v1/completions" body).1
    ≡ some (record {
      answer = streaming (chunk (104 ∷ 105 ∷ []) ∷ decoder_error "bad" 502 ∷ []);
      request_id = "id";
    })
unfolding route_disaggregated_prefill_request stream_reply
answer_run = refl

route_disaggregated_prefill_request-IsAnswered_example :
    IsAnswered good breaks_off true "/v1/completions" body
      (route_disaggregated_prefill_request good breaks_off true none "id" "/v1/completions" body)
route_disaggregated_prefill_request-IsAnswered_example =
    route_disaggregated_prefill_request-IsAnswered good breaks_off true none "id" "/v1/completions"
      body
