-- ===== src/Requests/Transcriptions.antt =====
-- `route_general_transcriptions` of src/vllm_router/services/request_service/request.py: the form of
-- an audio transcription goes to an engine, and its answer comes back.
pub mod Fields
mod Tests
pub mod Forward
use vllm_production_stack_cu.Base.{
  ℕ, String, ◌≡◌, refl, sym, ◌∙◌, ap, Bool, true, false, not, ◌&&◌, Option, none, some, List, [],
  ◌∷◌, ◌++◌, filter, In, All, arith, ◌==◌, string_eq, if◌then◌else◌, ◌⊎◌, inl, inr, Bool-cases,
  Option-cases,
}
use vllm_production_stack_cu.Base.Dict.{Dict, get, get_or, put, mem, get-put}
use vllm_production_stack_cu.Base.Json.{Value}
use vllm_production_stack_cu.Discovery.{EndpointInfo}

pub record Upload : Type 0 where
  pub filename : String
  pub content_type : String
  pub payload : List ℕ

-- the form: its file, and its texts
pub record Form : Type 0 where
  pub file : Option Upload
  pub texts : Dict String String

-- the POST to an engine: the file, and the other fields in order
pub record Post : Type 0 where
  pub url : String
  pub endpoint : String
  pub file : Upload
  pub fields : Dict String String

-- what a ClientResponseError has under `response`: no such attribute, None, or a response with its
-- body as JSON, as a text if it is none, or neither
pub data ErrorBody : Type 0 where
  no_attribute no_response unreadable : ErrorBody
  json_body : Value → ErrorBody
  text_body : String → ErrorBody

-- what posting and reading the body give
pub data Exchange : Type 0 where
  -- an answer with its status, headers and JSON
  answered : ℕ → Dict String String → Value → Exchange
  -- a ClientResponseError with its status and message
  response_error : ℕ → String → ErrorBody → Exchange
  -- another ClientError, and any other exception
  client_error : String → Exchange
  other_error : Exchange

-- the content of an error answer
pub data ErrorContent : Type 0 where
  engine_json : Value → ErrorContent
  engine_text : String → ErrorContent
  status_line : ℕ → String → ErrorContent

pub data Reply : Type 0 where
  -- status 400 with the key, 404 with the model
  missing_field : String → Reply
  no_backend : String → Reply
  -- the engine's status and JSON with the headers that are passed on
  proxied : ℕ → Dict String String → Value → Reply
  engine_error : ℕ → ErrorContent → Reply
  -- status 503 with the text of the exception, and 500
  connection_failed : String → Reply
  internal_error : Reply
  raised : Reply

abbrev pub defaults_language : String
defaults_language = "en"

abbrev pub defaults_format : String
defaults_format = "json"

-- the endpoints, one for each time that the model is among its names
unfoldable pub per_name : String → EndpointInfo → List String → List EndpointInfo
per_name model e [] = []
per_name model e (model_name ∷ names) =
    let rest = per_name model e names in
    if model == model_name && not e.sleep then e ∷ rest else rest

unfoldable pub transcription_endpoints : String → List EndpointInfo → List EndpointInfo
unfolding per_name
transcription_endpoints model [] = []
transcription_endpoints model (e ∷ endpoints) =
    per_name model e e.model_names ++ transcription_endpoints model endpoints

-- `if prompt:`
unfoldable pub add_text : String → Option String → Dict String String → Dict String String
add_text key none data' = data'
add_text key (some v) data' = if v == "" then data' else put key v data'

unfoldable pub add_temperature : Option String → Dict String String → Dict String String
add_temperature none data' = data'
add_temperature (some t) data' = put "temperature" t data'

-- `data`; the last argument is str(temperature)
unfoldable pub form_data : String → Dict String String → Option String → Dict String String
unfolding add_text add_temperature
form_data model texts temperature = add_temperature temperature (
    add_text "response_format" (some (get_or "response_format" defaults_format texts)) (
      add_text "prompt" (get "prompt" texts)
        (("model", model) ∷ ("language", get_or "language" defaults_language texts) ∷ [])))

unfoldable pub error_content : ℕ → String → ErrorBody → Option ErrorContent
error_content status message no_attribute = none
error_content status message no_response = some (status_line status message)
error_content status message unreadable = some (status_line status message)
error_content status message (json_body v) = some (engine_json v)
error_content status message (text_body text) = some (engine_text text)

-- `lower` is str.lower.
module _ (lower : String → String) where
  abbrev pub passes : String × String → Bool
  passes (k, v) = not (mem (lower k) ("content-encoding" ∷ "transfer-encoding" ∷ "connection" ∷ []))

  unfoldable pub response_headers : String → Dict String String → Dict String String
  response_headers request_id headers = put "X-Request-Id" request_id (filter passes headers)

  unfoldable pub reply_of : String → Exchange → Reply
  unfolding response_headers error_content
  reply_of request_id (answered status headers v) =
      proxied status (response_headers request_id headers) v
  reply_of request_id (response_error status message body) =
      elim (error_content status message body) [ none ↦ raised | some c ↦ engine_error status c ]
  reply_of request_id (client_error text) = connection_failed text
  reply_of request_id other_error = internal_error

  -- `router` is the call of `route_request` without the body, `none` if it raises, as it does for a
  -- router that takes the body; `str_float` is str(float(t)), `none` for a ValueError.
  module _ (router : List EndpointInfo → Option String) (str_float : String → Option String)
      (send : Post → Exchange) where
    -- `none` is the ValueError, `some none` no temperature
    unfoldable pub temperature_of : Dict String String → Option (Option String)
    temperature_of texts = elim (get "temperature" texts) [
      | none ↦ some none
      | some t ↦ elim (str_float t) [ none ↦ none | some t' ↦ some (some t') ]
    ]

    -- the part after the form has been read
    unfoldable pub proxy :
        List EndpointInfo
        → String
        → String
        → Upload
        → String
        → Dict String String
        → Option String
        → List Post × Reply
    unfolding transcription_endpoints form_data reply_of
    proxy endpoints request_id endpoint file model texts temperature =
        elim (transcription_endpoints model endpoints) [
          | [] ↦ ([], no_backend model)
          | e ∷ rest ↦ elim (router (e ∷ rest)) [
            | none ↦ ([], raised)
            | some chosen_url ↦
                let post : Post = record {
                  url = chosen_url;
                  endpoint = endpoint;
                  file = file;
                  fields = form_data model texts temperature;
                } in
                (post ∷ [], reply_of request_id (send post))
          ]
        ]

    -- The identifier is that of the header, or a fresh one. The requests that are sent, and the
    -- reply.
    unfoldable pub route_general_transcriptions :
        List EndpointInfo → Option String → String → String → Form → List Post × Reply
    unfolding proxy temperature_of
    route_general_transcriptions endpoints header fresh endpoint form =
        let request_id : String = elim header [ none ↦ fresh | some id ↦ id ] in
        elim form.file [
          | none ↦ ([], missing_field "file")
          | some file ↦ elim (get "model" form.texts) [
            | none ↦ ([], missing_field "model")
            | some model ↦ elim (temperature_of form.texts) [
              | none ↦ ([], raised)
              | some temperature ↦
                  proxy endpoints request_id endpoint file model form.texts temperature
            ]
          ]
        ]
