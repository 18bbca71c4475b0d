-- ===== src/Discovery/Kubernetes.antt =====
-- `K8sPodIPServiceDiscovery` of src/vllm_router/service_discovery.py. An event carries what the
-- calls that its handler makes return: the Kubernetes API, the engine, the clock, the event loop.
-- The watcher is a thread beside the handlers of requests.
pub mod Pods
pub mod Known
use vllm_production_stack_cu.Base.{
  ℕ, String, Bool, true, false, ◌&&◌, ◌||◌, not, Option, none, some, List, [], ◌∷◌, map, is_empty,
  filter, length, eqb, ◌==◌, string_eq, if◌then◌else◌,
}
use vllm_production_stack_cu.Base.Dict.{Dict, has, put, remove, mem, add}
use vllm_production_stack_cu.Discovery.{ModelInfo, EndpointInfo}

pub data EventType : Type 0 where
  added : EventType
  modified : EventType
  deleted : EventType
  other : EventType

-- A container of the pod; a missing command is the empty list, which is as false as `None`.
pub record Container : Type 0 where
  pub name : String
  pub command : List String

pub record PodEvent : Type 0 where
  pub event_type : EventType
  pub pod_name : String
  pub pod_ip : Option String
  -- which containers are ready; no statuses at all is the empty list
  pub container_statuses : List Bool
  -- deletion_timestamp is not None
  pub terminating : Bool
  -- the label "model" of the pod
  pub label : Option String
  -- what `_get_model_names` and `_get_model_info` return
  pub model_names : List String
  pub model_info : Dict String ModelInfo
  -- the containers of the pod, `none` for an ApiException
  pub containers : Option (List Container)
  -- the answer to /is_sleeping as true or false, `none` for any exception
  pub is_sleeping : Option Bool
  pub now : ℕ
  -- whether `initialize_client_sessions` got to run
  pub loop_running : Bool

-- the base urls of the two clients of the app's state, `none` while there is no client
pub record Clients : Type 0 where
  pub prefill_client : Option String
  pub decode_client : Option String

pub record Discovery : Type 0 where
  pub namespace : String
  pub port : String
  pub prefill_model_labels : Option (List String)
  pub decode_model_labels : Option (List String)
  pub available_engines : Dict String EndpointInfo
  pub known_models : List String
  pub clients : Clients

unfoldable pub new_discovery :
    String → String → Option (List String) → Option (List String) → Clients → Discovery
new_discovery namespace port prefill decode clients = record {
  namespace = namespace;
  port = port;
  prefill_model_labels = prefill;
  decode_model_labels = decode;
  available_engines = [];
  known_models = [];
  clients = clients;
}

-- Every container is ready, and there is one.
unfoldable pub check_pod_ready : List Bool → Bool
check_pod_ready statuses =
    if is_empty statuses
    then false
    else eqb (length (filter (λ ready. ready) statuses)) (length statuses)

-- the loop over the containers, which ends at the first one named "vllm"
unfoldable pub sleep_mode : List Container → Bool
sleep_mode [] = false
sleep_mode (c ∷ cs) =
    let rest = sleep_mode cs in
    if c.name == "vllm" then is_empty c.command || mem "--enable-sleep-mode" c.command else rest

unfoldable pub check_engine_sleep_mode : PodEvent → Bool
unfolding sleep_mode
check_engine_sleep_mode ev = elim ev.containers [ none ↦ false | some cs ↦ sleep_mode cs ]

unfoldable pub get_engine_sleep_status : PodEvent → Bool
get_engine_sleep_status ev = elim ev.is_sleeping [ none ↦ false | some sleep ↦ sleep ]

-- e.model_label in labels, where a label may be None
unfoldable pub labelled : List String → EndpointInfo → Bool
labelled labels e = elim e.model_label [ none ↦ false | some l ↦ mem l labels ]

-- the loop of `initialize_client_sessions`
unfoldable pub open_clients : List String → List String → List EndpointInfo → Clients → Clients
open_clients prefill decode [] c = c
open_clients prefill decode (e ∷ es) c = open_clients prefill decode es (
    if labelled prefill e
    then record c { prefill_client = some e.url }
    else (if labelled decode e then record c { decode_client = some e.url } else c))

unfoldable pub get_endpoint_info : Discovery → List EndpointInfo
get_endpoint_info d = map (λ p. p.1) d.available_engines

unfoldable pub initialize_client_sessions : Discovery → Clients
unfolding open_clients get_endpoint_info
initialize_client_sessions d = elim d.prefill_model_labels [
  | none ↦ d.clients
  | some prefill ↦ elim d.decode_model_labels [
    | none ↦ d.clients
    | some decode ↦ open_clients prefill decode (get_endpoint_info d) d.clients
  ]
]

-- known_models.update(model_names)
unfoldable pub update_known : List String → List String → List String
update_known [] known = known
update_known (n ∷ ns) known = update_known ns (add n known)

unfoldable pub delete_engine : Discovery → String → Discovery
delete_engine d engine_name = record d {
  available_engines = remove engine_name d.available_engines;
}

unfoldable pub is_pod_ready : PodEvent → Bool
unfolding check_pod_ready
is_pod_ready ev = check_pod_ready ev.container_statuses && not ev.terminating

-- `_add_engine` from there on: the watcher's thread waits for the client sessions, which the loop of
-- the app opens between requests, and then notes the models.
unfoldable pub remember_engine : Discovery → PodEvent → List String → Discovery
unfolding initialize_client_sessions update_known
remember_engine d ev model_names = record d {
  clients = if ev.loop_running then initialize_client_sessions d else d.clients;
  known_models = update_known model_names d.known_models;
}

-- the events that put an engine on offer, if its pod has an address
unfoldable pub adds : PodEvent → Bool
unfolding is_pod_ready
adds ev = elim ev.event_type [
  | added ↦ is_pod_ready ev && not (is_empty ev.model_names)
  | modified ↦ is_pod_ready ev && not (is_empty ev.model_names)
  | _ ↦ false
]

-- `uuid5` names the engine, `url` is the format "http://{ip}:{port}".
module _ (uuid5 : String → String) (url : String → String → String) where
  unfoldable pub endpoint_of :
      String → String → PodEvent → String → List String → Option String → EndpointInfo
  unfolding check_engine_sleep_mode get_engine_sleep_status
  endpoint_of namespace port ev engine_ip model_names model_label = record {
    url = url engine_ip port;
    model_names = model_names;
    id = uuid5 ev.pod_name;
    added_timestamp = ev.now;
    model_label = model_label;
    sleep = if check_engine_sleep_mode ev then get_engine_sleep_status ev else false;
    pod_name = some ev.pod_name;
    service_name = none;
    namespace = some namespace;
    model_info = some ev.model_info;
  }

  -- `_add_engine` up to the release of `available_engines_lock`: the engine is on offer
  unfoldable pub offer_engine :
      Discovery → PodEvent → String → List String → Option String → Discovery
  unfolding endpoint_of
  offer_engine d ev engine_ip model_names model_label =
      let e = endpoint_of d.namespace d.port ev engine_ip model_names model_label in
      record d { available_engines = put ev.pod_name e d.available_engines }

  unfoldable pub add_engine :
      Discovery → PodEvent → String → List String → Option String → Discovery
  unfolding offer_engine remember_engine
  add_engine d ev engine_ip model_names model_label =
      remember_engine (offer_engine d ev engine_ip model_names model_label) ev model_names

  unfoldable pub on_engine_update :
      Discovery → PodEvent → Bool → List String → Option String → Discovery
  unfolding add_engine delete_engine
  on_engine_update d ev is_pod_ready model_names model_label = elim ev.event_type [
    | added ↦ elim ev.pod_ip [
      | none ↦ d
      | some ip ↦
          if is_pod_ready && not (is_empty model_names)
          then add_engine d ev ip model_names model_label
          else d
    ]
    | deleted ↦ if has ev.pod_name d.available_engines then delete_engine d ev.pod_name else d
    | modified ↦ elim ev.pod_ip [
      | none ↦ d
      | some ip ↦
          if is_pod_ready && not (is_empty model_names)
          then add_engine d ev ip model_names model_label
          else (if has ev.pod_name d.available_engines then delete_engine d ev.pod_name else d)
    ]
    | other ↦ d
  ]

  -- the body of the loop of `_watch_engines`
  unfoldable pub watch_event : Discovery → PodEvent → Discovery
  unfolding on_engine_update is_pod_ready
  watch_event d ev = elim ev.event_type [
    | deleted ↦ if has ev.pod_name d.available_engines then delete_engine d ev.pod_name else d
    | _ ↦
        let ready = is_pod_ready ev in
        let model_names : List String = (if ready then ev.model_names else []) in
        let model_label : Option String = (if ready then ev.label else none) in
        on_engine_update d ev ready model_names model_label
  ]

  unfoldable pub watch_engines : Discovery → List PodEvent → Discovery
  unfolding watch_event
  watch_engines d [] = d
  watch_engines d (ev ∷ evs) = watch_engines (watch_event d ev) evs

  -- What requests see while the watcher is in the midst of an event: an engine that is added is on
  -- offer, and its models are not noted yet. The clients may be opened already.
  unfoldable pub during_event : Discovery → PodEvent → Discovery
  unfolding offer_engine adds
  during_event d ev = elim ev.pod_ip [
    | none ↦ d
    | some ip ↦ if adds ev then offer_engine d ev ip ev.model_names ev.label else d
  ]

unfoldable pub has_ever_seen_model : Discovery → String → Bool
has_ever_seen_model d model_name = mem model_name d.known_models
