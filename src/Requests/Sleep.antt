-- ===== src/Requests/Sleep.antt =====
-- `route_sleep_wakeup_request` of src/vllm_router/services/request_service/request.py: an engine is
-- put to sleep or woken, and its pod is labelled.
mod Tests
use vllm_production_stack_cu.Base.{
  ℕ, String, ◌≡◌, refl, ◌∙◌, true, false, Option, none, some, List, [], ◌∷◌, filter, arith, ◌==◌,
  string_eq, if◌then◌else◌,
}
use vllm_production_stack_cu.Base.Dict.{Dict, get, has}
use vllm_production_stack_cu.Base.Json.{Value}
use vllm_production_stack_cu.Discovery.{EndpointInfo}
use vllm_production_stack_cu.Discovery.Labels.{
  LabelApi, IsLabelApi, IsWritable, Labels, pods, add_sleep_label, remove_sleep_label,
  add_sleep_label-pods, remove_sleep_label-pods,
}

-- A body of the request: none, or one with what it parses to, `none` if it is no JSON.
pub data Body : Type 0 where
  empty : Body
  content : Option Value → Body

-- The two errors with status 400, the second with the identifier; the engine's JSON; success with
-- the engine's status; or an exception.
pub data Reply : Type 0 where
  missing_id : Reply
  engine_not_found : String → Reply
  engine_json : Value → Reply
  success : ℕ → Reply
  raised : Reply

-- `get` and `post` are the calls of the engine, by its url and the path, `none` for an exception;
-- `post` takes the JSON body and gives the status.
module _ (api : LabelApi) (get_json : String → String → Option Value)
    (post : String → String → Option Value → Option ℕ) where
  -- the call of the discovery after that of the engine
  unfoldable pub label_pod : String → Option String → Labels api → Option (Labels api)
  label_pod endpoint pod_name labels =
      if endpoint == "/sleep"
      then add_sleep_label api labels pod_name
      else (if endpoint == "/wake_up" then remove_sleep_label api labels pod_name else some labels)

  unfoldable pub post_to : EndpointInfo → String → Option Value → Labels api → Labels api × Reply
  unfolding label_pod
  post_to e endpoint req_data labels = elim (post e.url endpoint req_data) [
    | none ↦ (labels, raised)
    | some response_status ↦ elim (label_pod endpoint e.pod_name labels) [
      | none ↦ (labels, raised)
      | some labels' ↦ (labels', success response_status)
    ]
  ]

  unfoldable pub call_engine : EndpointInfo → String → Body → Labels api → Labels api × Reply
  unfolding post_to
  call_engine e endpoint request_body labels =
      if endpoint == "/is_sleeping"
      then elim (get_json e.url endpoint) [
        | none ↦ (labels, raised)
        | some v ↦ (labels, engine_json v)
      ]
      else elim request_body [
        | empty ↦ post_to e endpoint none labels
        | content none ↦ (labels, raised)
        | content (some v) ↦ post_to e endpoint (some v) labels
      ]

  -- The query parameter `id` is `none` where there is none.
  unfoldable pub route_sleep_wakeup_request :
      List EndpointInfo → Option String → String → Body → Labels api → Labels api × Reply
  unfolding call_engine
  route_sleep_wakeup_request endpoints none endpoint request_body labels = (labels, missing_id)
  route_sleep_wakeup_request endpoints (some id) endpoint request_body labels =
      elim (filter (λ x. x.id == id) endpoints) [
        | [] ↦ (labels, engine_not_found id)
        | e ∷ rest ↦ call_engine e endpoint request_body labels
      ]

  -- what both calls below rely on: the engine is on offer, has a pod, and takes the call
  abbrev pub Takes : List EndpointInfo → String → String → String → ℕ → Type 0
  Takes endpoints id endpoint pod_name status =
      (e : EndpointInfo) × (rest : List EndpointInfo) × (filter (λ x. x.id == id) endpoints
        ≡ e ∷ rest)
      × (e.pod_name ≡ some pod_name)
      × (post e.url endpoint none ≡ some status)

  sleep_call :
      (endpoints : List EndpointInfo) (id pod_name : String) (status : ℕ)
      (labels labels' : Labels api)
      → Takes endpoints id "/sleep" pod_name status
      → add_sleep_label api labels (some pod_name) ≡ some labels'
      → route_sleep_wakeup_request endpoints (some id) "/sleep" empty labels
        ≡ (labels', success status)
  unfolding route_sleep_wakeup_request call_engine post_to label_pod
  sleep_call endpoints id pod_name status labels labels' (e, rest, first, named, taken) done =
      rw (route_sleep_wakeup_request, first, call_engine, post_to, taken, label_pod, named, done)
        refl

  wake_up_call :
      (endpoints : List EndpointInfo) (id pod_name : String) (status : ℕ)
      (labels labels' : Labels api)
      → Takes endpoints id "/wake_up" pod_name status
      → remove_sleep_label api labels (some pod_name) ≡ some labels'
      → route_sleep_wakeup_request endpoints (some id) "/wake_up" empty labels
        ≡ (labels', success status)
  unfolding route_sleep_wakeup_request call_engine post_to label_pod
  wake_up_call endpoints id pod_name status labels labels' (e, rest, first, named, taken) done =
      rw (route_sleep_wakeup_request, first, call_engine, post_to, taken, label_pod, named, done)
        refl

  -- With an API that merges patches and refuses none: an engine whose pod has no label "sleeping"
  -- is put to sleep and, whatever has become of the other endpoints, woken. Both calls succeed with
  -- the engine's status, the label is "true" in between, and in the end every pod has the labels
  -- that it had.
  pub sleep_wake_up :
      (c : api.Cluster) (endpoints endpoints' : List EndpointInfo) (id pod_name : String)
      → (slept woken : ℕ) (labels : Dict String String) → IsLabelApi api
      → IsWritable api
      → Takes endpoints id "/sleep" pod_name slept
      → Takes endpoints' id "/wake_up" pod_name woken
      → api.read c pod_name ≡ some (some labels)
      → get "sleeping" labels ≡ none
      → (c' c'' : api.Cluster) × (between after : Dict String String) × (route_sleep_wakeup_request
            endpoints
            (some id)
            "/sleep"
            empty
            (pods c)
          ≡ (pods c', success slept))
        × (api.read c' pod_name ≡ some (some between))
        × (get "sleeping" between ≡ some "true")
        × (route_sleep_wakeup_request endpoints' (some id) "/wake_up" empty (pods c')
            ≡ (pods c'', success woken))
        × (api.read c'' pod_name ≡ some (some after))
        × ((k : String) → get k after ≡ get k labels)
        × ((other : String) → (pod_name == other) ≡ false → api.read c'' other ≡ api.read c other)
  sleep_wake_up c endpoints endpoints' id pod_name slept woken labels law writable t t' e no_label =
      let (c', between, asleep, e', now, kept) =
        add_sleep_label-pods api c pod_name labels law writable e in
      let there : has "sleeping" between ≡ true = ground (arith, now "sleeping") in
      let (c'', after, awake, e'', then', kept') =
        remove_sleep_label-pods api c' pod_name between law writable e' there in
      (
        c',
        c'',
        between,
        after,
        sleep_call endpoints id pod_name slept (pods c) (pods c') t asleep,
        e',
        now "sleeping",
        wake_up_call endpoints' id pod_name woken (pods c') (pods c'') t' awake,
        e'',
        λ k. ground (arith, now k, then' k, string_eq.same_iff "sleeping" k, no_label),
        λ other apart. kept' other apart ∙ kept other apart,
      )
