-- ===== src/Stats/Life/Steps.antt =====
-- Each call of the monitor keeps its counters right.
use vllm_production_stack_cu.Base.{
  ◌-◌, String, ◌≡◌, refl, ◌∙◌, ap, true, some, List, [], ◌∷◌, ◌++◌, inl, inr, arith, ◌==◌,
  string_eq, pair_eq, if◌then◌else◌, Bool-cases, Option-cases,
}
use vllm_production_stack_cu.Base.Dict.{get, has}
use vllm_production_stack_cu.Base.Floats.{Floats}
use vllm_production_stack_cu.Stats.Window.{new_window, update}
use vllm_production_stack_cu.Stats.Monitor.{
  Monitor, RequestKey, new_monitor, on_new_request, on_request_response, on_request_complete,
  on_request_swapped, count_complete, record_latency,
}
use vllm_production_stack_cu.Stats.Life.{
  Life, count, Agrees, Step, arrive, first_token, complete, swapped, Run, begin, and_then,
}
use vllm_production_stack_cu.Stats.Life.Counts.{
  In-middle, In-around, count-middle, get_or-increment, get_or-decrement, known-put, put-known,
  has_ensured, has-put, self_or, or_right,
}

module _ (fl : Floats) where
  pub record_latency_counters :
      (n : Monitor fl) (url id : String) (t now : fl.F)
      → ((record_latency fl n url id t now).0.in_prefill_requests ≡ n.in_prefill_requests)
        × ((record_latency fl n url id t now).0.in_decoding_requests ≡ n.in_decoding_requests)
  unfolding record_latency
  record_latency_counters n url id t now = (ground arith, ground arith)

  new-Agrees :
      (size : fl.F)
      → Agrees fl (new_monitor fl size) (record { prefilling = []; decoding = []; finished = [] })
  unfolding new_monitor get
  new-Agrees size = record {
    prefill = λ u. refl;
    decode = λ u. refl;
    done = λ u. refl;
    started = λ r i. absurd i;
    monitored = λ r t e. cc;
  }

  module _ {m : Monitor fl} {life : Life} (a : Agrees fl m life) (url id : String) where
    arrive-Agrees :
        (t : fl.F)
        → Agrees fl
            (on_new_request fl m url id t)
            (record life { prefilling = (url, id) ∷ life.prefilling })
    unfolding on_new_request
    arrive-Agrees t = record {
      prefill = λ u. ground (arith, a.prefill u, get_or-increment url u m.in_prefill_requests);
      decode = a.decode;
      done = a.done;
      started = λ r i.
          known-put (url, id) r t m.request_start_time
            (elim i [ inl e ↦ inl e | inr old ↦ inr (a.started r old) ]);
      monitored = λ r t' e.
          has_ensured url r.0 (new_window fl m.sliding_window_size) m.latency_monitors
          ∙ elim (put-known (url, id) r t t' m.request_start_time e) [
            | inl same ↦ rw same (self_or url _)
            | inr old ↦ or_right (url == r.0) _ (a.monitored r t' old)
          ];
    }

    first_token-Agrees :
        (t : fl.F) (xs ys : List RequestKey)
        → life.prefilling ≡ xs ++ (url, id) ∷ ys
        → Agrees fl
            (on_request_response fl m url id t)
            (record life { prefilling = xs ++ ys; decoding = (url, id) ∷ life.decoding })
    unfolding on_request_response
    first_token-Agrees t xs ys e =
        let (s, known) = a.started (url, id) (rw e (In-middle xs ys (url, id))) in
        rw (known, on_request_response)
          (record {
            prefill = λ u.
                get_or-decrement url u m.in_prefill_requests
                ∙ ap (λ n. n - (if url == u then 1 else 0)) (a.prefill u ∙ ap (count u) e)
                ∙ count-middle u xs ys (url, id);
            decode = λ u. ground (arith, a.decode u, get_or-increment url u m.in_decoding_requests);
            done = a.done;
            started = λ r i. a.started r (rw e (In-around xs ys (url, id) r i));
            monitored = a.monitored;
          })

    -- what `record_latency` leaves alone
    record_latency-keeps :
        (n : Monitor fl) (t now : fl.F)
        → ((r : RequestKey) (s : fl.F)
            → get r n.request_start_time ≡ some s
            → has r.0 n.latency_monitors ≡ true)
        → ((record_latency fl n url id t now).1 ≡ true)
          × ((record_latency fl n url id t now).0.in_prefill_requests ≡ n.in_prefill_requests)
          × ((record_latency fl n url id t now).0.in_decoding_requests ≡ n.in_decoding_requests)
          × ((record_latency fl n url id t now).0.finished_requests ≡ n.finished_requests)
          × ((record_latency fl n url id t now).0.request_start_time ≡ n.request_start_time)
          × ((u : String)
              → has u n.latency_monitors ≡ true
              → has u (record_latency fl n url id t now).0.latency_monitors ≡ true)
    unfolding record_latency
    record_latency-keeps n t now known = elim (Option-cases (get (url, id) n.request_start_time)) [
      | inl e ↦ rw (e, record_latency) (refl, refl, refl, refl, refl, λ u h. h)
      | inr (s, e) ↦ elim (Bool-cases (fl.truthy s)) [
        | inl on ↦ elim (Option-cases (get url n.latency_monitors)) [
          | inl gone ↦ let h = known (url, id) s e in absurd (ground arith)
          | inr (w, found) ↦
              rw (e, record_latency)
                (rw on (
                  rw found (
                    refl,
                    refl,
                    refl,
                    refl,
                    refl,
                    λ u h. has-put url u (update fl t (fl.sub now s) w) n.latency_monitors h,
                  )))
        ]
        | inr off ↦ rw (e, record_latency) (rw off (refl, refl, refl, refl, refl, λ u h. h))
      ]
    ]

    complete-Agrees :
        (t now : fl.F) (xs ys : List RequestKey)
        → life.decoding ≡ xs ++ (url, id) ∷ ys
        → Agrees fl
            (on_request_complete fl m url id t now).0
            (record life { decoding = xs ++ ys; finished = (url, id) ∷ life.finished })
          × ((on_request_complete fl m url id t now).1 ≡ true)
    unfolding on_request_complete count_complete
    complete-Agrees t now xs ys e =
        let n = count_complete fl m url in
        let (ok, pre, dec, fin, start, lat) = record_latency-keeps n t now a.monitored in
        (
          record {
            prefill = λ u. rw pre (a.prefill u);
            decode = λ u. rw dec (
                get_or-decrement url u m.in_decoding_requests
                ∙ ap (λ k. k - (if url == u then 1 else 0)) (a.decode u ∙ ap (count u) e)
                ∙ count-middle u xs ys (url, id));
            done =
                λ u. rw fin (ground (arith, a.done u, get_or-increment url u m.finished_requests));
            started = λ r i. rw start (a.started r i);
            monitored = λ r s k. lat r.0 (a.monitored r s (rw start at k));
          },
          ok,
        )

  swapped-Agrees :
      {m : Monitor fl} {life : Life} (url : String)
      → Agrees fl m life
      → Agrees fl (on_request_swapped fl m url) life
  unfolding on_request_swapped
  swapped-Agrees url a = record {
    prefill = a.prefill;
    decode = a.decode;
    done = a.done;
    started = a.started;
    monitored = a.monitored;
  }

  Step-Agrees :
      {m m' : Monitor fl} {life life' : Life}
      → Step fl m life m' life'
      → Agrees fl m life
      → Agrees fl m' life'
  Step-Agrees (arrive url id t) a = arrive-Agrees a url id t
  Step-Agrees (first_token url id t xs ys e) a = first_token-Agrees a url id t xs ys e
  Step-Agrees (complete url id t now xs ys e) a = (complete-Agrees a url id t now xs ys e).0
  Step-Agrees (swapped url) a = swapped-Agrees url a

  -- However the requests come and go, as long as each gets a first token before it ends, the
  -- counters of every engine are the numbers of its requests that wait for a token, that are being
  -- answered, and that are done.
  pub Run-Agrees :
      (size : fl.F) {m : Monitor fl} {life : Life} → Run fl size m life → Agrees fl m life
  Run-Agrees size begin = new-Agrees size
  Run-Agrees size (and_then r s) = Step-Agrees s (Run-Agrees size r)

  -- In a run in which each request gets a first token before it ends, the end of a request that is
  -- being answered never raises.
  pub on_request_complete-returns :
      (size : fl.F) {m : Monitor fl} {life : Life} (url id : String) (t now : fl.F)
      (xs ys : List RequestKey)
      → Run fl size m life
      → life.decoding ≡ xs ++ (url, id) ∷ ys
      → (on_request_complete fl m url id t now).1 ≡ true
  on_request_complete-returns size url id t now xs ys r e =
      (complete-Agrees (Run-Agrees size r) url id t now xs ys e).1
