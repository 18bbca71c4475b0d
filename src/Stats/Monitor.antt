-- ===== src/Stats/Monitor.antt =====
-- `RequestStatsMonitor` of src/vllm_router/stats/request_stats.py. The counters are natural numbers:
-- `max(0, n - 1)` is the subtraction that stops at 0.
use vllm_production_stack_cu.Base.{
  ℕ, ◌+◌, ◌-◌, String, Bool, true, false, not, Option, none, some, List, [], ◌∷◌, ◌++◌, filter,
  string_eq, pair_eq, if◌then◌else◌,
}
use vllm_production_stack_cu.Base.Dict.{Dict, get, get_or, has, put, keys}
use vllm_production_stack_cu.Base.Floats.{Floats}
use vllm_production_stack_cu.Stats.Record.{RequestStats}
use vllm_production_stack_cu.Stats.Window.{
  Window, new_window, update, update_no_value, get_sum, get_average,
}

-- (engine_url, request_id)
abbrev pub RequestKey : Type 0
RequestKey = String × String

-- d[k] += 1, after d[k] = 0 for a missing key
abbrev pub increment : String → Dict String ℕ → Dict String ℕ
increment k d = put k (get_or k 0 d + 1) d

-- d[k] = max(0, d.get(k, 1) - 1)
abbrev pub decrement : String → Dict String ℕ → Dict String ℕ
decrement k d = put k (get_or k 1 d - 1) d

module _ (fl : Floats) where
  open fl use {F, sub, div, of_ℕ, minus_one, truthy}

  pub record Monitor : Type 0 where
    pub sliding_window_size : F
    pub qps_monitors : Dict String (Window fl)
    pub ttft_monitors : Dict String (Window fl)
    pub request_start_time : Dict RequestKey F
    pub first_token_time : Dict RequestKey F
    pub in_prefill_requests : Dict String ℕ
    pub in_decoding_requests : Dict String ℕ
    pub finished_requests : Dict String ℕ
    pub latency_monitors : Dict String (Window fl)
    pub decoding_length_monitors : Dict String (Window fl)
    pub swapped_requests : Dict String ℕ
    pub first_query_time : Option F

  unfoldable pub new_monitor : F → Monitor
  new_monitor size = record {
    sliding_window_size = size;
    qps_monitors = [];
    ttft_monitors = [];
    request_start_time = [];
    first_token_time = [];
    in_prefill_requests = [];
    in_decoding_requests = [];
    finished_requests = [];
    latency_monitors = [];
    decoding_length_monitors = [];
    swapped_requests = [];
    first_query_time = none;
  }

  -- a monitor of the dict, made anew if it is missing
  abbrev pub monitor_of : F → String → Dict String (Window fl) → Window fl
  monitor_of size url d = get_or url (new_window fl size) d

  unfoldable pub on_new_request : Monitor → String → String → F → Monitor
  on_new_request m engine_url request_id timestamp = record m {
    request_start_time = put (engine_url, request_id) timestamp m.request_start_time;
    in_prefill_requests = increment engine_url m.in_prefill_requests;
    qps_monitors =
        put engine_url
          (update fl timestamp (of_ℕ 1)
            (monitor_of m.sliding_window_size engine_url m.qps_monitors))
          m.qps_monitors;
    latency_monitors =
        if has engine_url m.latency_monitors
        then m.latency_monitors
        else put engine_url (new_window fl m.sliding_window_size) m.latency_monitors;
    first_query_time = elim m.first_query_time [ none ↦ some timestamp | some t ↦ some t ];
  }

  unfoldable pub on_request_response : Monitor → String → String → F → Monitor
  on_request_response m engine_url request_id timestamp =
      elim (get (engine_url, request_id) m.request_start_time) [
        | none ↦ m
        | some started ↦ record m {
          first_token_time = put (engine_url, request_id) timestamp m.first_token_time;
          in_prefill_requests = decrement engine_url m.in_prefill_requests;
          in_decoding_requests = increment engine_url m.in_decoding_requests;
          ttft_monitors =
              put engine_url
                (update fl timestamp (sub timestamp started)
                  (monitor_of m.sliding_window_size engine_url m.ttft_monitors))
                m.ttft_monitors;
        }
      ]

  -- the counters of `on_request_complete`
  unfoldable pub count_complete : Monitor → String → Monitor
  count_complete m engine_url = record m {
    in_decoding_requests = decrement engine_url m.in_decoding_requests;
    finished_requests = increment engine_url m.finished_requests;
  }

  -- its part under `if request_start_time := ...`: a missing start and the start 0.0 are skipped.
  -- `now` is what `time.time()` returns. `false` tells of the KeyError of a missing monitor.
  unfoldable pub record_latency : Monitor → String → String → F → F → Monitor × Bool
  record_latency m engine_url request_id timestamp now =
      elim (get (engine_url, request_id) m.request_start_time) [
        | none ↦ (m, true)
        | some started ↦ elim (truthy started) [
          | false ↦ (m, true)
          | true ↦ elim (get engine_url m.latency_monitors) [
            | none ↦ (m, false)
            | some w ↦ (
              record m {
                latency_monitors =
                    put engine_url (update fl timestamp (sub now started) w) m.latency_monitors;
              },
              true,
            )
          ]
        ]
      ]

  unfoldable pub on_request_complete : Monitor → String → String → F → F → Monitor × Bool
  unfolding count_complete record_latency
  on_request_complete m engine_url request_id timestamp now =
      record_latency (count_complete m engine_url) engine_url request_id timestamp now

  unfoldable pub on_request_swapped : Monitor → String → Monitor
  on_request_swapped m engine_url = record m {
    swapped_requests = increment engine_url m.swapped_requests;
  }

  -- the keys of both dicts, each once
  unfoldable pub known_urls : Monitor → List String
  known_urls m =
      keys m.in_prefill_requests
      ++ filter (λ u. not (has u m.in_prefill_requests)) (keys m.in_decoding_requests)

  -- One round of the loop of `get_request_stats`: it moves the windows of the url on.
  unfoldable pub refresh_url : F → Monitor → String → Monitor
  refresh_url current_time m url = record m {
    qps_monitors = elim (get url m.qps_monitors) [
      | none ↦ m.qps_monitors
      | some w ↦ put url (update_no_value fl current_time w) m.qps_monitors
    ];
    ttft_monitors = elim (get url m.ttft_monitors) [
      | none ↦ m.ttft_monitors
      | some w ↦ put url (update_no_value fl current_time w) m.ttft_monitors
    ];
  }

  abbrev pub average_of : String → Dict String (Window fl) → F
  average_of url d = elim (get url d) [ none ↦ minus_one | some w ↦ get_average fl w ]

  unfoldable pub stats_of : F → Monitor → String → RequestStats fl
  stats_of current_time m url = record {
    qps = elim (get url m.qps_monitors) [
      | none ↦ minus_one
      | some w ↦ div (get_sum fl w) m.sliding_window_size
    ];
    ttft = average_of url m.ttft_monitors;
    in_prefill_requests = get_or url 0 m.in_prefill_requests;
    in_decoding_requests = get_or url 0 m.in_decoding_requests;
    finished_requests = get_or url 0 m.finished_requests;
    uptime = elim m.first_query_time [
      | none ↦ of_ℕ 0
      | some t ↦ if truthy t then sub current_time t else of_ℕ 0
    ];
    avg_decoding_length = average_of url m.decoding_length_monitors;
    avg_latency = average_of url m.latency_monitors;
    avg_itl = minus_one;
    num_swapped_requests = get_or url 0 m.swapped_requests;
  }

  unfoldable pub stats_loop :
      F
      → Monitor
      → List String
      → Dict String (RequestStats fl)
      → Monitor × Dict String (RequestStats fl)
  stats_loop current_time m [] ret = (m, ret)
  stats_loop current_time m (url ∷ rest) ret =
      let m' = refresh_url current_time m url in
      stats_loop current_time m' rest (put url (stats_of current_time m' url) ret)

  unfoldable pub get_request_stats : Monitor → F → Monitor × Dict String (RequestStats fl)
  unfolding stats_loop known_urls
  get_request_stats m current_time = stats_loop current_time m (known_urls m) []
