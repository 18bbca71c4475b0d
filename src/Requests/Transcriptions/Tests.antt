-- ===== src/Requests/Transcriptions/Tests.antt =====
-- A form with a file and a model.
use vllm_production_stack_cu.Base.{
  String, ◌≡◌, refl, false, Option, none, some, List, [], ◌∷◌, inl, string_eq,
}
use vllm_production_stack_cu.Base.Dict.{Dict, get}
use vllm_production_stack_cu.Base.Json.{Value}
use vllm_production_stack_cu.Discovery.{EndpointInfo}
use vllm_production_stack_cu.Requests.Transcriptions.{
  Upload, Post, Exchange, answered, route_general_transcriptions, temperature_of,
}
use vllm_production_stack_cu.Requests.Transcriptions.Forward.{
  IsRouter, IsForwarded, route_general_transcriptions-IsForwarded,
}

abbrev engine : EndpointInfo
engine = record {
  url = "http://10.0.0.1:8000";
  model_names = "whisper" ∷ [];
  id = "e1";
  added_timestamp = 0;
  model_label = none;
  sleep = false;
  pod_name = none;
  service_name = none;
  namespace = none;
  model_info = none;
}

abbrev first_offered : List EndpointInfo → Option String
first_offered [] = none
first_offered (e ∷ rest) = some e.url

first_offered-IsRouter : IsRouter first_offered
first_offered-IsRouter e rest = (e, inl refl, refl)

abbrev lower : String → String
lower s = s

abbrev str_float : String → Option String
str_float s = some s

abbrev transcribe : Post → Exchange
transcribe post = answered 200 [] (Value.str "hello")

abbrev file : Upload
file = record { filename = "a.wav"; content_type = "audio/wav"; payload = 82 ∷ [] }

abbrev texts : Dict String String
texts = ("model", "whisper") ∷ ("temperature", "0.5") ∷ []

named : get "model" texts ≡ some "whisper"
unfolding get
named = refl

read : temperature_of lower first_offered str_float transcribe texts ≡ some (some "0.5")
unfolding temperature_of get
read = refl

route_general_transcriptions-IsForwarded_example :
    IsForwarded lower first_offered str_float transcribe
      (engine ∷ [])
      "id"
      file
      "whisper"
      texts
      (some "0.5")
      (route_general_transcriptions lower first_offered str_float transcribe
        (engine ∷ [])
        (some "id")
        "fresh"
        "/v1/audio/transcriptions"
        (record { file = some file; texts = texts }))
route_general_transcriptions-IsForwarded_example =
    route_general_transcriptions-IsForwarded lower first_offered str_float transcribe (engine ∷ [])
      "id" "fresh" "/v1/audio/transcriptions" file "whisper" texts (some "0.5")
      first_offered-IsRouter named read
