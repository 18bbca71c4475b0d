-- ===== src/Stats/Report.antt =====
-- What `get_request_stats` reports.
use vllm_production_stack_cu.Base.{
  String, ◌≡◌, refl, subst, ◌∙◌, ap, true, false, not, ◌||◌, some, List, [], ◌∷◌, filter, arith,
  ◌==◌, string_eq, Bool-cases, inl, inr,
}
use vllm_production_stack_cu.Base.Dict.{
  Dict, get, get_or, has, put, keys, mem, get-put, mem-keys, mem-append, mem-filter,
}
use vllm_production_stack_cu.Base.Floats.{Floats}
use vllm_production_stack_cu.Stats.Record.{RequestStats}
use vllm_production_stack_cu.Stats.Monitor.{
  Monitor, new_monitor, on_new_request, on_request_response, on_request_complete, count_complete,
  record_latency, on_request_swapped, known_urls, refresh_url, stats_of, stats_loop,
  get_request_stats, average_of,
}
use vllm_production_stack_cu.Stats.Life.{
  Life, count, arrive, first_token, complete, swapped, Run, begin, and_then,
}
use vllm_production_stack_cu.Stats.Life.Steps.{Run-Agrees}

module _ (fl : Floats) where
  open fl use {F, minus_one}

  -- The counters and averages of `m` for the url, which the windows of rates do not touch.
  pub record IsReport (m : Monitor fl) (url : String) (stat : RequestStats fl) : Type 0 where
    pub prefill : stat.in_prefill_requests ≡ get_or url 0 m.in_prefill_requests
    pub decode : stat.in_decoding_requests ≡ get_or url 0 m.in_decoding_requests
    pub done : stat.finished_requests ≡ get_or url 0 m.finished_requests
    pub swaps : stat.num_swapped_requests ≡ get_or url 0 m.swapped_requests
    pub decoding_length : stat.avg_decoding_length ≡ average_of fl url m.decoding_length_monitors
    pub latency : stat.avg_latency ≡ average_of fl url m.latency_monitors

  stats_of-IsReport :
      (now : F) (m : Monitor fl) (url : String) → IsReport m url (stats_of fl now m url)
  unfolding stats_of
  stats_of-IsReport now m url = record {
    prefill = refl;
    decode = refl;
    done = refl;
    swaps = refl;
    decoding_length = refl;
    latency = refl;
  }

  -- a report of the refreshed monitor is one of the monitor
  refreshed :
      (now : F) (m : Monitor fl) (v url : String) (stat : RequestStats fl)
      → IsReport (refresh_url fl now m v) url stat
      → IsReport m url stat
  unfolding refresh_url
  refreshed now m v url stat r = record {
    prefill = r.prefill;
    decode = r.decode;
    done = r.done;
    swaps = r.swaps;
    decoding_length = r.decoding_length;
    latency = r.latency;
  }

  refreshing :
      (now : F) (m : Monitor fl) (v url : String) (stat : RequestStats fl)
      → IsReport m url stat
      → IsReport (refresh_url fl now m v) url stat
  unfolding refresh_url
  refreshing now m v url stat r = record {
    prefill = r.prefill;
    decode = r.decode;
    done = r.done;
    swaps = r.swaps;
    decoding_length = r.decoding_length;
    latency = r.latency;
  }

  abbrev Reported : Monitor fl → String → Dict String (RequestStats fl) → Type 0
  Reported m url d = (stat : RequestStats fl) × (get url d ≡ some stat) × IsReport m url stat

  absent_case :
      (now : F) (m : Monitor fl) (v : String) (urls : List String)
      (ret : Dict String (RequestStats fl)) (url : String)
      → (mem url (v ∷ urls) ≡ false → Reported m url ret)
      → mem url urls ≡ false
      → Reported
          (refresh_url fl now m v)
          url
          (put v (stats_of fl now (refresh_url fl now m v) v) ret)
  unfolding mem
  absent_case now m v urls ret url h absent = elim (Bool-cases (v == url)) [
    | inl same ↦
        let m' = refresh_url fl now m v in
        let e = (string_eq.same_iff v url).0 same in
        (
          stats_of fl now m' v,
          ground (arith, get-put v url (stats_of fl now m' v) ret),
          subst (λ w. IsReport m' w (stats_of fl now m' v)) e (stats_of-IsReport now m' v),
        )
    | inr other ↦
        let (stat, found, r) = h (ground arith) in
        (
          stat,
          ground (arith, get-put v url (stats_of fl now (refresh_url fl now m v) v) ret),
          refreshing now m v url stat r,
        )
  ]

  stats_loop-Reported :
      (now : F) (m : Monitor fl) (urls : List String) (ret : Dict String (RequestStats fl))
      (url : String)
      → (mem url urls ≡ false → Reported m url ret)
      → Reported m url (stats_loop fl now m urls ret).1
  unfolding stats_loop mem
  stats_loop-Reported now m [] ret url h = h refl
  stats_loop-Reported now m (v ∷ urls) ret url h =
      let m' = refresh_url fl now m v in
      let here = stats_of fl now m' v in
      let (stat, e, r) =
        stats_loop-Reported now m' urls (put v here ret) url (absent_case now m v urls ret url h) in
      (stat, e, refreshed now m v url stat r)

  -- Every engine that the monitor counts requests for is in the report, with its counters.
  pub get_request_stats-Reported :
      (m : Monitor fl) (now : F) (url : String)
      → (has url m.in_prefill_requests || has url m.in_decoding_requests) ≡ true
      → (stat : RequestStats fl) × (get url (get_request_stats fl m now).1 ≡ some stat)
        × IsReport m url stat
  unfolding get_request_stats known_urls
  get_request_stats-Reported m now url known =
      stats_loop-Reported now m (known_urls fl m) [] url (λ absent. absurd (
        ground (
          arith,
          mem-append url (keys m.in_prefill_requests)
              (filter (λ u. not (has u m.in_prefill_requests)) (keys m.in_decoding_requests)),
          mem-keys url m.in_prefill_requests,
          mem-keys url m.in_decoding_requests,
          mem-filter (λ u. not (has u m.in_prefill_requests)) url (keys m.in_decoding_requests),
        )))

  -- No call feeds a value to the monitors of decoding lengths.
  Run-decoding_length :
      (size : F) {m : Monitor fl} {life : Life}
      → Run fl size m life
      → m.decoding_length_monitors ≡ []
  unfolding new_monitor on_new_request on_request_response on_request_complete count_complete
      record_latency on_request_swapped
  Run-decoding_length size begin = refl
  Run-decoding_length size (and_then r (arrive url id t)) = Run-decoding_length size r
  Run-decoding_length size (and_then r (first_token url id t xs ys e)) =
      ground (arith, Run-decoding_length size r)
  Run-decoding_length size (and_then r (complete url id t now xs ys e)) =
      ground (arith, Run-decoding_length size r)
  Run-decoding_length size (and_then r (swapped url)) = Run-decoding_length size r

  -- After any run in which each request gets a token before it ends, the report of an engine that is
  -- counted has the numbers of its requests in each stage, and an average decoding length of -1.
  pub get_request_stats-Run :
      (size : F) {m : Monitor fl} {life : Life} (now : F) (url : String)
      → Run fl size m life
      → (has url m.in_prefill_requests || has url m.in_decoding_requests) ≡ true
      → (stat : RequestStats fl) × (get url (get_request_stats fl m now).1 ≡ some stat)
        × (stat.in_prefill_requests ≡ count url life.prefilling)
        × (stat.in_decoding_requests ≡ count url life.decoding)
        × (stat.finished_requests ≡ count url life.finished)
        × (stat.avg_decoding_length ≡ minus_one)
  unfolding get
  get_request_stats-Run size {m} now url r known =
      let (stat, e, report) = get_request_stats-Reported m now url known in
      let a = Run-Agrees fl size r in
      (
        stat,
        e,
        report.prefill ∙ a.prefill url,
        report.decode ∙ a.decode url,
        report.done ∙ a.done url,
        report.decoding_length ∙ ap (average_of fl url) (Run-decoding_length size r),
      )
