-- ===== src/Requests/Sleep/Tests.antt =====
-- An engine that is put to sleep and woken, over a small cluster.
use vllm_production_stack_cu.Base.{
  ℕ, String, ◌≡◌, refl, false, Option, none, some, [], ◌∷◌, ◌==◌, string_eq, if◌then◌else◌,
}
use vllm_production_stack_cu.Base.Dict.{Dict, get}
use vllm_production_stack_cu.Base.Json.{Value}
use vllm_production_stack_cu.Discovery.{EndpointInfo}
use vllm_production_stack_cu.Discovery.Labels.{pods}
use vllm_production_stack_cu.Discovery.Labels.Sample.{
  Objects, function_api, function_api-IsLabelApi, function_api-IsWritable,
}
use vllm_production_stack_cu.Requests.Sleep.{
  empty, success, route_sleep_wakeup_request, sleep_wake_up,
}

abbrev engine : EndpointInfo
engine = record {
  url = "http://10.0.0.1:8000";
  model_names = "m" ∷ [];
  id = "e1";
  added_timestamp = 0;
  model_label = none;
  sleep = false;
  pod_name = some "p";
  service_name = none;
  namespace = none;
  model_info = none;
}

abbrev no_get : String → String → Option Value
no_get url path = none

abbrev always_ok : String → String → Option Value → Option ℕ
always_ok url path body = some 200

abbrev labels : Dict String String
labels = ("model", "m") ∷ []

abbrev cluster : Objects
cluster name = if name == "p" then some (some labels) else none

sleep_wake_up_example :
    (c' c'' : Objects) × (between after : Dict String String) × (route_sleep_wakeup_request
        function_api no_get always_ok
        (engine ∷ [])
        (some "e1")
        "/sleep"
        empty
        (pods cluster)
      ≡ (pods c', success 200))
    × (c' "p" ≡ some (some between))
    × (get "sleeping" between ≡ some "true")
    × (route_sleep_wakeup_request function_api no_get always_ok
          (engine ∷ [])
          (some "e1")
          "/wake_up"
          empty
          (pods c')
        ≡ (pods c'', success 200))
    × (c'' "p" ≡ some (some after))
    × ((k : String) → get k after ≡ get k labels)
    × ((other : String) → ("p" == other) ≡ false → c'' other ≡ cluster other)
unfolding get
sleep_wake_up_example =
    sleep_wake_up function_api no_get always_ok cluster (engine ∷ []) (engine ∷ []) "e1" "p" 200 200
      labels function_api-IsLabelApi function_api-IsWritable (engine, [], refl, refl, refl)
      (engine, [], refl, refl, refl) refl refl
