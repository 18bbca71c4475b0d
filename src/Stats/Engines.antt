-- ===== src/Stats/Engines.antt =====
-- `EngineStatsScraper._scrape_metrics` of src/vllm_router/stats/engine_stats.py. The statistics of
-- an engine are of any type; what `_scrape_one_endpoint` returns for the endpoints is an argument.
use vllm_production_stack_cu.Base.{
  String, ◌≡◌, refl, ◌∙◌, Option, none, some, List, [], ◌∷◌, arith, ◌==◌, string_eq, if◌then◌else◌,
  Bool-cases, inl, inr,
}
use vllm_production_stack_cu.Base.Dict.{
  Dict, get, has, put, remove, keys, mem, get-put, get-remove, mem-keys, IsDistinct, put-IsDistinct,
}

module _ {Stats : Type 0} where
  -- the loop over the endpoints, each with what its scrape gave
  unfoldable pub collect : List (String × Option Stats) → Dict String Stats → Dict String Stats
  collect [] collected = collected
  collect ((url, answer) ∷ rest) collected = elim answer [
    | none ↦ collect rest collected
    | some stats ↦ collect rest (put url stats collected)
  ]

  -- for old_url in old_urls: if old_url not in collected: del engine_stats[old_url]
  unfoldable pub sweep : List String → Dict String Stats → Dict String Stats → Dict String Stats
  sweep [] collected engine_stats = engine_stats
  sweep (old_url ∷ old_urls) collected engine_stats =
      sweep old_urls collected
        (if has old_url collected then engine_stats else remove old_url engine_stats)

  -- for url, stats in collected.items(): engine_stats[url] = stats
  unfoldable pub store : Dict String Stats → Dict String Stats → Dict String Stats
  store [] engine_stats = engine_stats
  store ((url, stats) ∷ rest) engine_stats = store rest (put url stats engine_stats)

  unfoldable pub scrape_metrics :
      List (String × Option Stats) → Dict String Stats → Dict String Stats
  unfolding collect sweep store
  scrape_metrics answers engine_stats =
      let collected = collect answers [] in
      store collected (sweep (keys engine_stats) collected engine_stats)

  -- the last answer that came from a url, or the one before all of them
  unfoldable pub latest : String → List (String × Option Stats) → Option Stats → Option Stats
  latest u [] before = before
  latest u ((url, none) ∷ rest) before = latest u rest before
  latest u ((url, some stats) ∷ rest) before =
      latest u rest (if url == u then some stats else before)

  get-collect :
      (u : String) (answers : List (String × Option Stats)) (d : Dict String Stats)
      → get u (collect answers d) ≡ latest u answers (get u d)
  unfolding collect latest
  get-collect u [] d = refl
  get-collect u ((url, none) ∷ rest) d = get-collect u rest d
  get-collect u ((url, some stats) ∷ rest) d =
      get-collect u rest (put url stats d) ∙ rw (get-put url u stats d) refl

  get-sweep :
      (u : String) (us : List String) (c d : Dict String Stats)
      → get u (sweep us c d) ≡ (if mem u us then (if has u c then get u d else none) else get u d)
  unfolding sweep mem
  get-sweep u [] c d = refl
  get-sweep u (v ∷ us) c d = elim (Bool-cases (has v c)) [
    | inl kept ↦ ground (arith, kept, get-sweep u us c d, string_eq.same_iff v u)
    | inr dropped ↦
        ground
          (arith, dropped, get-sweep u us c (remove v d), get-remove v u d, string_eq.same_iff v u)
  ]

  collect-IsDistinct :
      (answers : List (String × Option Stats)) (d : Dict String Stats)
      → IsDistinct d
      → IsDistinct (collect answers d)
  unfolding collect
  collect-IsDistinct [] d y = y
  collect-IsDistinct ((url, none) ∷ rest) d y = collect-IsDistinct rest d y
  collect-IsDistinct ((url, some stats) ∷ rest) d y =
      collect-IsDistinct rest (put url stats d) (put-IsDistinct url stats d y)

  get-store :
      (u : String) (c d : Dict String Stats)
      → IsDistinct c
      → get u (store c d) ≡ (elim (get u c) [ some s ↦ some s | none ↦ get u d ])
  unfolding store get
  get-store u [] d y = refl
  get-store u ((k, v) ∷ c) d (fresh, y) =
      ground (arith, get-store u c (put k v d) y, get-put k u v d, string_eq.same_iff k u)

  -- After a scrape the table has, whatever it held before, the last answer of each endpoint that
  -- answered, and nothing for any other url.
  pub get-scrape_metrics :
      (u : String) (answers : List (String × Option Stats)) (engine_stats : Dict String Stats)
      → get u (scrape_metrics answers engine_stats) ≡ latest u answers none
  unfolding scrape_metrics get
  get-scrape_metrics u answers engine_stats =
      let c = collect answers [] in
      let swept = get-sweep u (keys engine_stats) c engine_stats in
      get-store u c (sweep (keys engine_stats) c engine_stats) (collect-IsDistinct answers [] tt)
      ∙ ground (arith, swept, mem-keys u engine_stats, get-collect u answers [])
