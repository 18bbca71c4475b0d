-- ===== src/Stats/Life/Leak.antt =====
-- A request that ends without a token: an empty answer of the engine.
use vllm_production_stack_cu.Base.{◌+◌, ◌-◌, String, ◌≡◌, arith, string_eq, pair_eq}
use vllm_production_stack_cu.Base.Dict.{get_or}
use vllm_production_stack_cu.Base.Floats.{Floats}
use vllm_production_stack_cu.Stats.Monitor.{
  Monitor, on_new_request, on_request_complete, count_complete,
}
use vllm_production_stack_cu.Stats.Life.Counts.{get_or-increment, get_or-decrement}
use vllm_production_stack_cu.Stats.Life.Steps.{record_latency_counters}

module _ (fl : Floats) where
  -- A request that arrives and ends with no token in between stays counted as waiting for ever, and
  -- takes another request off the count of those being answered.
  pub complete_without_token :
      (m : Monitor fl) (url id : String) (t t' now : fl.F)
      → (get_or url 0
            (on_request_complete fl
              (on_new_request fl m url id t)
              url
              id
              t'
              now).0.in_prefill_requests
          ≡ get_or url 0 m.in_prefill_requests + 1)
        × (get_or url 0
              (on_request_complete fl
                (on_new_request fl m url id t)
                url
                id
                t'
                now).0.in_decoding_requests
            ≡ get_or url 0 m.in_decoding_requests - 1)
  unfolding on_request_complete count_complete on_new_request
  complete_without_token m url id t t' now =
      let n = on_new_request fl m url id t in
      let (pre, dec) = record_latency_counters fl (count_complete fl n url) url id t' now in
      (
        rw pre (
            ground
              (arith, get_or-increment url url m.in_prefill_requests, string_eq.same_iff url url)),
        rw dec (
            ground
              (arith, get_or-decrement url url m.in_decoding_requests, string_eq.same_iff url url)),
      )
