-- ===== src/Stats/Record.antt =====
-- `RequestStats` of src/vllm_router/stats/request_stats.py.
use vllm_production_stack_cu.Base.{ℕ}
use vllm_production_stack_cu.Base.Floats.{Floats}

pub record RequestStats (fl : Floats) : Type 0 where
  pub qps : fl.F
  pub ttft : fl.F
  pub in_prefill_requests : ℕ
  pub in_decoding_requests : ℕ
  pub finished_requests : ℕ
  pub uptime : fl.F
  pub avg_decoding_length : fl.F
  pub avg_latency : fl.F
  pub avg_itl : fl.F
  pub num_swapped_requests : ℕ
