-- ===== src/Stats/Scrape.antt =====
-- What `EngineStatsScraper` of src/vllm_router/stats/engine_stats.py reads of an engine, and the turns
-- of its worker. The samples are those that prometheus_client finds in the text; the lock and the
-- sleep between the turns are left out.
use vllm_production_stack_cu.Base.{
  String, ◌≡◌, refl, ◌∙◌, Bool, true, false, Option, none, some, List, [], ◌∷◌, ◌==◌, string_eq,
  if◌then◌else◌, arith, ap,
}
use vllm_production_stack_cu.Base.Dict.{Dict, get}
use vllm_production_stack_cu.Base.Floats.{Floats}
use vllm_production_stack_cu.Stats.Engines.{scrape_metrics, latest, get-scrape_metrics}

-- what requests.get gives: an exception, of a bad status too, or the samples of the text, `none` if
-- the text is malformed
pub data Scraped (F : Type 0) : Type 0 where
  failed : Scraped F
  page : Option (List (String × F)) → Scraped F

module _ (fl : Floats) where
  open fl use {F, of_ℕ}

  pub record EngineStats : Type 0 where
    pub num_running_requests : F
    pub num_queuing_requests : F
    pub gpu_prefix_cache_hit_rate : F
    pub gpu_prefix_cache_hits_total : F
    pub gpu_prefix_cache_queries_total : F
    pub gpu_cache_usage_perc : F

  abbrev pub no_stats : EngineStats
  no_stats = record {
    num_running_requests = of_ℕ 0;
    num_queuing_requests = of_ℕ 0;
    gpu_prefix_cache_hit_rate = of_ℕ 0;
    gpu_prefix_cache_hits_total = of_ℕ 0;
    gpu_prefix_cache_queries_total = of_ℕ 0;
    gpu_cache_usage_perc = of_ℕ 0;
  }

  -- one sample
  unfoldable pub read_sample : String → F → EngineStats → EngineStats
  read_sample name value s =
      if name == "vllm:num_requests_running"
      then record s { num_running_requests = value }
      else if name == "vllm:num_requests_waiting"
      then record s { num_queuing_requests = value }
      else if name == "vllm:gpu_prefix_cache_hit_rate"
      then record s { gpu_prefix_cache_hit_rate = value }
      else if name == "vllm:gpu_prefix_cache_hits_total"
      then record s { gpu_prefix_cache_hits_total = value }
      else if name == "vllm:gpu_prefix_cache_queries_total"
      then record s { gpu_prefix_cache_queries_total = value }
      else if name == "vllm:gpu_cache_usage_perc"
      then record s { gpu_cache_usage_perc = value }
      else s

  unfoldable pub read_samples : List (String × F) → EngineStats → EngineStats
  unfolding read_sample
  read_samples [] s = s
  read_samples ((name, value) ∷ rest) s = read_samples rest (read_sample name value s)

  unfoldable pub from_vllm_scrape : List (String × F) → EngineStats
  unfolding read_samples
  from_vllm_scrape samples = read_samples samples no_stats

  unfoldable pub scrape_one_endpoint : Scraped F → Option EngineStats
  unfolding from_vllm_scrape
  scrape_one_endpoint failed = none
  scrape_one_endpoint (page none) = none
  scrape_one_endpoint (page (some samples)) = some (from_vllm_scrape samples)

  unfoldable pub scrape_endpoints : List (String × Scraped F) → List (String × Option EngineStats)
  unfolding scrape_one_endpoint
  scrape_endpoints [] = []
  scrape_endpoints ((url, scraped) ∷ rest) =
      (url, scrape_one_endpoint scraped) ∷ scrape_endpoints rest

  -- the turns of the worker, each with the endpoints of the discovery and what they answer
  unfoldable pub scrape_worker :
      List (List (String × Scraped F)) → Dict String EngineStats → Dict String EngineStats
  unfolding scrape_metrics scrape_endpoints
  scrape_worker [] engine_stats = engine_stats
  scrape_worker (turn ∷ turns) engine_stats =
      scrape_worker turns (scrape_metrics (scrape_endpoints turn) engine_stats)

  -- the value of the last sample with a name
  unfoldable pub last_value : String → List (String × F) → F → F
  last_value name [] before = before
  last_value name ((n, value) ∷ rest) before =
      last_value name rest (if n == name then value else before)

  other : (x y z : String) → (y == z) ≡ false → (x == y) ≡ true → (x == z) ≡ false
  other x y z e f =
      ground (arith, string_eq.same_iff x y, string_eq.same_iff x z, string_eq.same_iff y z)

  -- the last value of every number
  unfoldable pub last_stats : List (String × F) → EngineStats → EngineStats
  unfolding last_value
  last_stats samples s = record {
    num_running_requests = last_value "vllm:num_requests_running" samples s.num_running_requests;
    num_queuing_requests = last_value "vllm:num_requests_waiting" samples s.num_queuing_requests;
    gpu_prefix_cache_hit_rate =
        last_value "vllm:gpu_prefix_cache_hit_rate" samples s.gpu_prefix_cache_hit_rate;
    gpu_prefix_cache_hits_total =
        last_value "vllm:gpu_prefix_cache_hits_total" samples s.gpu_prefix_cache_hits_total;
    gpu_prefix_cache_queries_total =
        last_value "vllm:gpu_prefix_cache_queries_total" samples s.gpu_prefix_cache_queries_total;
    gpu_cache_usage_perc = last_value "vllm:gpu_cache_usage_perc" samples s.gpu_cache_usage_perc;
  }

  read_sample-fields :
      (name : String) (value : F) (s : EngineStats)
      → read_sample name value s ≡ (record {
        num_running_requests =
            if name == "vllm:num_requests_running" then value else s.num_running_requests;
        num_queuing_requests =
            if name == "vllm:num_requests_waiting" then value else s.num_queuing_requests;
        gpu_prefix_cache_hit_rate =
            if name == "vllm:gpu_prefix_cache_hit_rate" then value else s.gpu_prefix_cache_hit_rate;
        gpu_prefix_cache_hits_total =
            if name == "vllm:gpu_prefix_cache_hits_total"
            then value
            else s.gpu_prefix_cache_hits_total;
        gpu_prefix_cache_queries_total =
            if name == "vllm:gpu_prefix_cache_queries_total"
            then value
            else s.gpu_prefix_cache_queries_total;
        gpu_cache_usage_perc =
            if name == "vllm:gpu_cache_usage_perc" then value else s.gpu_cache_usage_perc;
      })
  unfolding read_sample
  read_sample-fields name value s = ground (
    arith,
    other name "vllm:num_requests_running" "vllm:num_requests_waiting" refl,
    other name "vllm:num_requests_running" "vllm:gpu_prefix_cache_hit_rate" refl,
    other name "vllm:num_requests_running" "vllm:gpu_prefix_cache_hits_total" refl,
    other name "vllm:num_requests_running" "vllm:gpu_prefix_cache_queries_total" refl,
    other name "vllm:num_requests_running" "vllm:gpu_cache_usage_perc" refl,
    other name "vllm:num_requests_waiting" "vllm:gpu_prefix_cache_hit_rate" refl,
    other name "vllm:num_requests_waiting" "vllm:gpu_prefix_cache_hits_total" refl,
    other name "vllm:num_requests_waiting" "vllm:gpu_prefix_cache_queries_total" refl,
    other name "vllm:num_requests_waiting" "vllm:gpu_cache_usage_perc" refl,
    other name "vllm:gpu_prefix_cache_hit_rate" "vllm:gpu_prefix_cache_hits_total" refl,
    other name "vllm:gpu_prefix_cache_hit_rate" "vllm:gpu_prefix_cache_queries_total" refl,
    other name "vllm:gpu_prefix_cache_hit_rate" "vllm:gpu_cache_usage_perc" refl,
    other name "vllm:gpu_prefix_cache_hits_total" "vllm:gpu_prefix_cache_queries_total" refl,
    other name "vllm:gpu_prefix_cache_hits_total" "vllm:gpu_cache_usage_perc" refl,
    other name "vllm:gpu_prefix_cache_queries_total" "vllm:gpu_cache_usage_perc" refl,
  )

  read_samples-last :
      (samples : List (String × F)) (s : EngineStats)
      → read_samples samples s ≡ last_stats samples s
  unfolding read_samples last_stats last_value
  read_samples-last [] s = refl
  read_samples-last ((name, value) ∷ rest) s =
      read_samples-last rest (read_sample name value s)
      ∙ ap (last_stats rest) (read_sample-fields name value s)

  -- Each number of a scrape is that of the last sample with its name, and 0 without one.
  pub from_vllm_scrape-last :
      (samples : List (String × F)) → from_vllm_scrape samples ≡ last_stats samples no_stats
  unfolding from_vllm_scrape
  from_vllm_scrape-last samples = read_samples-last samples no_stats

  -- the statistics of what was read, if anything was
  abbrev pub page_stats : Option (List (String × F)) → Option EngineStats
  page_stats none = none
  page_stats (some samples) = some (last_stats samples no_stats)

  -- the samples of the last page of an engine that could be read
  unfoldable pub last_page :
      String → List (String × Scraped F) → Option (List (String × F)) → Option (List (String × F))
  last_page u [] before = before
  last_page u ((url, failed) ∷ rest) before = last_page u rest before
  last_page u ((url, page none) ∷ rest) before = last_page u rest before
  last_page u ((url, page (some samples)) ∷ rest) before =
      last_page u rest (if url == u then some samples else before)

  page_stats-if :
      (b : Bool) (samples : List (String × F)) (before : Option (List (String × F)))
      → (if b then some (from_vllm_scrape samples) else page_stats before)
        ≡ page_stats (if b then some samples else before)
  page_stats-if true samples before = ap some (from_vllm_scrape-last samples)
  page_stats-if false samples before = refl

  latest-scrape_endpoints :
      (u : String) (turn : List (String × Scraped F)) (before : Option (List (String × F)))
      → latest u (scrape_endpoints turn) (page_stats before) ≡ page_stats (last_page u turn before)
  unfolding scrape_endpoints scrape_one_endpoint latest last_page
  latest-scrape_endpoints u [] before = refl
  latest-scrape_endpoints u ((url, failed) ∷ rest) before = latest-scrape_endpoints u rest before
  latest-scrape_endpoints u ((url, page none) ∷ rest) before = latest-scrape_endpoints u rest before
  latest-scrape_endpoints u ((url, page (some samples)) ∷ rest) before =
      ap (latest u (scrape_endpoints rest)) (page_stats-if (url == u) samples before)
      ∙ latest-scrape_endpoints u rest (if url == u then some samples else before)

  -- After a scrape the table has, whatever it held before, exactly the engines of the turn whose page
  -- could be read, and each number of an engine is the last one under its name on its last such
  -- page, or 0 if the page has none.
  pub get-scrape_endpoints :
      (u : String) (turn : List (String × Scraped F)) (engine_stats : Dict String EngineStats)
      → get u (scrape_metrics (scrape_endpoints turn) engine_stats)
        ≡ page_stats (last_page u turn none)
  get-scrape_endpoints u turn engine_stats =
      get-scrape_metrics u (scrape_endpoints turn) engine_stats
      ∙ latest-scrape_endpoints u turn none
