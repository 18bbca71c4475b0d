-- ===== src/Requests/Transcriptions/Fields.antt =====
-- The fields of the form that is sent on.
use vllm_production_stack_cu.Base.{
  String, ◌≡◌, refl, ◌∙◌, Option, none, some, [], ◌∷◌, arith, ◌==◌, string_eq, if◌then◌else◌,
}
use vllm_production_stack_cu.Base.Dict.{Dict, get, get_or, get-put}
use vllm_production_stack_cu.Requests.Transcriptions.{
  add_text, add_temperature, form_data, defaults_language, defaults_format,
}

-- a text that is there and not empty
abbrev pub non_empty : Option String → Option String
non_empty none = none
non_empty (some v) = if v == "" then none else some v

-- the fields that are sent with the file
pub record AsAsked (model : String) (texts : Dict String String) (temperature : Option String)
    (fields : Dict String String) : Type 0 where
  pub model_sent : get "model" fields ≡ some model
  pub language_sent : get "language" fields ≡ some (get_or "language" "en" texts)
  pub prompt_sent : get "prompt" fields ≡ non_empty (get "prompt" texts)
  pub format_sent :
      get "response_format" fields ≡ non_empty (some (get_or "response_format" "json" texts))
  pub temperature_sent : get "temperature" fields ≡ temperature

get-add_text :
    (key k : String) (o : Option String) (fields : Dict String String)
    → get key fields ≡ none
    → get k (add_text key o fields) ≡ (if key == k then non_empty o else get k fields)
unfolding add_text
get-add_text key k none fields fresh = ground (arith, fresh, string_eq.same_iff key k)
get-add_text key k (some v) fields fresh =
    ground (arith, fresh, string_eq.same_iff key k, get-put key k v fields)

get-add_temperature :
    (k : String) (o : Option String) (fields : Dict String String)
    → get "temperature" fields ≡ none
    → get k (add_temperature o fields) ≡ (if "temperature" == k then o else get k fields)
unfolding add_temperature
get-add_temperature k none fields fresh = ground (arith, fresh, string_eq.same_iff "temperature" k)
get-add_temperature k (some t) fields fresh = get-put "temperature" k t fields

pub form_data-AsAsked :
    (model : String) (texts : Dict String String) (temperature : Option String)
    → AsAsked model texts temperature (form_data model texts temperature)
unfolding form_data get
form_data-AsAsked model texts temperature =
    let prompt' = get "prompt" texts in
    let language = get_or "language" defaults_language texts in
    let format : Option String = some (get_or "response_format" defaults_format texts) in
    let base : Dict String String = ("model", model) ∷ ("language", language) ∷ [] in
    let with_prompt = add_text "prompt" prompt' base in
    let p : (k : String)
        → get k with_prompt ≡ (if "prompt" == k then non_empty prompt' else get k base) =
      λ k. get-add_text "prompt" k prompt' base refl in
    let with_format = add_text "response_format" format with_prompt in
    let f : (k : String)
        → get k with_format
          ≡ (if "response_format" == k then non_empty format else get k with_prompt) =
      λ k. get-add_text "response_format" k format with_prompt (p "response_format") in
    let t : (k : String)
        → get k (add_temperature temperature with_format)
          ≡ (if "temperature" == k then temperature else get k with_format) =
      λ k. get-add_temperature k temperature with_format (f "temperature" ∙ p "temperature") in
    record {
      model_sent = t "model" ∙ f "model" ∙ p "model";
      language_sent = t "language" ∙ f "language" ∙ p "language";
      prompt_sent = t "prompt" ∙ f "prompt" ∙ p "prompt";
      format_sent = t "response_format" ∙ f "response_format";
      temperature_sent = t "temperature";
    }
