-- ===== src/Stats/Tests.antt =====
-- The statistics at small inputs, with times that are natural numbers.
use vllm_production_stack_cu.Base.{
  ℕ, List, String, Option, ◌-◌, ◌≡◌, refl, true, ◌||◌, [], ◌∷◌, some, none, filter, string_eq,
  pair_eq,
}
use vllm_production_stack_cu.Base.Dict.{Dict, get, has, put, remove}
use vllm_production_stack_cu.Base.Floats.{nat_floats, nat_floats-IsOrdered}
use vllm_production_stack_cu.Stats.Record.{RequestStats}
use vllm_production_stack_cu.Stats.Window.{Window, update, update-filter, expire, is_recent, points}
use vllm_production_stack_cu.Stats.Monitor.{
  Monitor, new_monitor, on_new_request, on_request_response, get_request_stats,
}
use vllm_production_stack_cu.Stats.Life.{count, Agrees, Run, begin, and_then, arrive, first_token}
use vllm_production_stack_cu.Stats.Life.Steps.{Run-Agrees}
use vllm_production_stack_cu.Stats.Scrape.{
  Scraped, page, no_stats, read_sample, read_samples, from_vllm_scrape, scrape_one_endpoint,
  scrape_endpoints, page_stats, last_page, get-scrape_endpoints,
}
use vllm_production_stack_cu.Stats.Engines.{collect, sweep, store, scrape_metrics}
use vllm_production_stack_cu.Stats.Report.{get_request_stats-Run}

abbrev window : Window nat_floats
window = record { sliding_window_size = 10; timestamps = 1 ∷ 5 ∷ []; values = 1 ∷ 1 ∷ [] }

window_run : (update nat_floats 12 1 window).timestamps ≡ 5 ∷ 12 ∷ []
unfolding update expire
window_run = refl

update-filter_example :
    points nat_floats
      (update nat_floats 12 1 window).timestamps
      (update nat_floats 12 1 window).values
    ≡ filter (is_recent nat_floats (12 - 10)) ((1, 1) ∷ (5, 1) ∷ (12, 1) ∷ [])
update-filter_example =
    update-filter nat_floats nat_floats-IsOrdered 12 1 window refl
      ((refl, (refl, tt)), ((refl, tt), (tt, tt)))

abbrev empty : Monitor nat_floats
empty = new_monitor nat_floats 10

abbrev arrived : Monitor nat_floats
arrived = on_new_request nat_floats empty "a" "r1" 3

abbrev answered : Monitor nat_floats
answered = on_request_response nat_floats arrived "a" "r1" 4

answered-Run :
    Run nat_floats 10 answered
      (record { prefilling = []; decoding = ("a", "r1") ∷ []; finished = [] })
answered-Run = and_then (and_then begin (arrive "a" "r1" 3)) (first_token "a" "r1" 4 [] [] refl)

answered_known :
    (has "a" answered.in_prefill_requests || has "a" answered.in_decoding_requests) ≡ true
unfolding on_request_response on_new_request new_monitor get put
answered_known = refl

Run-Agrees_example :
    Agrees nat_floats answered
      (record { prefilling = []; decoding = ("a", "r1") ∷ []; finished = [] })
Run-Agrees_example = Run-Agrees nat_floats 10 answered-Run

get_request_stats-Run_example :
    (stat : RequestStats nat_floats) × (get "a" (get_request_stats nat_floats answered 9).1
      ≡ some stat)
    × (stat.in_prefill_requests ≡ 0)
    × (stat.in_decoding_requests ≡ count "a" (("a", "r1") ∷ []))
    × (stat.finished_requests ≡ 0)
    × (stat.avg_decoding_length ≡ 0)
get_request_stats-Run_example =
    get_request_stats-Run nat_floats 10 9 "a" answered-Run answered_known

-- a scrape in which "a" answers, "b" does not, and "c" is no endpoint any more
abbrev scraped : List (String × Option ℕ)
scraped = ("a", some 4) ∷ ("b", none) ∷ []

abbrev before : Dict String ℕ
before = ("c", 1) ∷ ("b", 2) ∷ []

scrape_run : scrape_metrics scraped before ≡ ("a", 4) ∷ []
unfolding scrape_metrics collect sweep store put remove get
scrape_run = refl

-- pages of "a", the second of which cannot be read
abbrev pages : List (String × Scraped ℕ)
pages =
    ("a", page (some (("vllm:num_requests_running", 3) ∷ ("vllm:num_requests_running", 5) ∷ [])))
    ∷ ("a", page none)
    ∷ []

pages_run :
    scrape_one_endpoint nat_floats (page (some (("vllm:num_requests_waiting", 2) ∷ [])))
    ≡ some (record (no_stats nat_floats) { num_queuing_requests = 2 })
unfolding scrape_one_endpoint from_vllm_scrape read_samples read_sample
pages_run = refl

get-scrape_endpoints_example :
    get "a" (scrape_metrics (scrape_endpoints nat_floats pages) [])
    ≡ page_stats nat_floats (last_page nat_floats "a" pages none)
get-scrape_endpoints_example = get-scrape_endpoints nat_floats "a" pages []
