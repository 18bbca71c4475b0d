-- ===== src/Stats/Life.antt =====
-- The counters of the monitor against the requests themselves: which of them wait for their first
-- token, which are being answered, which are done.
pub mod Counts
pub mod Steps
pub mod Leak
use vllm_production_stack_cu.Base.{
  ℕ, suc, ◌+◌, ◌-◌, String, ◌≡◌, refl, sym, ◌∙◌, ap, Bool, true, false, ◌||◌, Option, none, some,
  List, [], ◌∷◌, ◌++◌, In, inl, inr, ◌⊎◌, arith, ◌==◌, string_eq, pair_eq, if◌then◌else◌,
  Bool-cases, Option-cases,
}
use vllm_production_stack_cu.Base.Dict.{Dict, get, get_or, has, put, get-put}
use vllm_production_stack_cu.Base.Floats.{Floats}
use vllm_production_stack_cu.Stats.Window.{new_window, update}
use vllm_production_stack_cu.Stats.Monitor.{
  Monitor, RequestKey, new_monitor, on_new_request, on_request_response, on_request_complete,
  on_request_swapped, count_complete, record_latency, increment, decrement,
}

-- The requests in each stage.
pub record Life : Type 0 where
  pub prefilling : List RequestKey
  pub decoding : List RequestKey
  pub finished : List RequestKey

-- how many of the requests are on the engine
abbrev pub count : String → List RequestKey → ℕ
count url [] = 0
count url (r ∷ rs) = (if r.0 == url then 1 else 0) + count url rs

-- The monitor counts what there is, and knows the start of every request that is under way.
pub record Agrees (fl : Floats) (m : Monitor fl) (life : Life) : Type 0 where
  pub prefill : (u : String) → get_or u 0 m.in_prefill_requests ≡ count u life.prefilling
  pub decode : (u : String) → get_or u 0 m.in_decoding_requests ≡ count u life.decoding
  pub done : (u : String) → get_or u 0 m.finished_requests ≡ count u life.finished
  pub started :
      (r : RequestKey) → In r life.prefilling → (t : fl.F) × (get r m.request_start_time ≡ some t)
  pub monitored :
      (r : RequestKey) (t : fl.F)
      → get r m.request_start_time ≡ some t
      → has r.0 m.latency_monitors ≡ true

module _ (fl : Floats) where
  -- What the router tells the monitor: requests arrive, get their first token, end, are swapped.
  pub data Step (m : Monitor fl) (life : Life) : Monitor fl → Life → Type 0 where
    arrive :
        (url id : String) (t : fl.F)
        → Step m life
            (on_new_request fl m url id t)
            (record life { prefilling = (url, id) ∷ life.prefilling })
    first_token :
        (url id : String) (t : fl.F) (xs ys : List RequestKey)
        → life.prefilling ≡ xs ++ (url, id) ∷ ys
        → Step m life
            (on_request_response fl m url id t)
            (record life { prefilling = xs ++ ys; decoding = (url, id) ∷ life.decoding })
    complete :
        (url id : String) (t now : fl.F) (xs ys : List RequestKey)
        → life.decoding ≡ xs ++ (url, id) ∷ ys
        → Step m life
            (on_request_complete fl m url id t now).0
            (record life { decoding = xs ++ ys; finished = (url, id) ∷ life.finished })
    swapped : (url : String) → Step m life (on_request_swapped fl m url) life

  pub data Run (size : fl.F) : Monitor fl → Life → Type 0 where
    begin :
        Run size (new_monitor fl size) (record { prefilling = []; decoding = []; finished = [] })
    and_then :
        {m m' : Monitor fl} {life life' : Life}
        → Run size m life
        → Step m life m' life'
        → Run size m' life'
