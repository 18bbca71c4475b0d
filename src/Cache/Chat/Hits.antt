-- ===== src/Cache/Chat/Hits.antt =====
-- When a search finds something, and when a request is answered.
use vllm_production_stack_cu.Base.{
  ℕ, String, ◌≡◌, refl, ap, ◌∙◌, ◌||◌, not, Option, none, some, List, [], ◌∷◌, eqb, string_eq, inl,
  inr, Option-cases, Bool-cases,
}
use vllm_production_stack_cu.Base.Json.{Value, Fields, truthy}
use vllm_production_stack_cu.Cache.{
  Outside, Entry, SemanticCache, Search, hit, miss, raised, search_db, new_cache, search, store,
  threshold_or,
}
use vllm_production_stack_cu.Cache.History.{store_chat, call, calls}
use vllm_production_stack_cu.Cache.Chat.Messages.{loggable}
use vllm_production_stack_cu.Cache.Chat.{
  forward, cached, check_raised, Chats, response_of, conclude, look_up, threshold_in, model_in,
  messages_in_body, flag,
}
use vllm_production_stack_cu.Cache.Chat.Exchanges.{store_all}

module _ (o : Outside) where
  -- the state at the start, without files
  unfoldable pub new_chats : o.Score → Chats o
  new_chats default = record {
    cache = some (new_cache o none default);
    size = 0;
    hits = 0;
    misses = 0;
    hit_ratio = none;
  }

  -- the threshold of a request, `none` where it is no number
  abbrev pub threshold_for : o.Score → Option (Option o.Score) → Option o.Score
  threshold_for default none = some default
  threshold_for default (some t) = t

  pub calls-threshold :
      (c : SemanticCache o) (es : List Entry) (t : Option (Option o.Score))
      → threshold_or o (calls o c (store_all o es)) t
        ≡ threshold_for c.default_similarity_threshold t
  unfolding calls call store threshold_or
  calls-threshold c [] none = refl
  calls-threshold c [] (some t) = refl
  calls-threshold c (entry ∷ es) t =
      calls-threshold (call o c (store_chat entry)) es t
      ∙ ap (λ d. threshold_for d t)
          (elim (Option-cases (o.get_embedding entry.request_messages)) [
            | inl e ↦ rw (call, store, e) refl
            | inr (v, e) ↦ rw (call, store, e) refl
          ])

  hit-search_db :
      (c : SemanticCache o) (q : o.Embedding) (model : Value) (t : Option o.Score) (entry : Entry)
      (score : o.Score)
      → search_db o c.db q model t ≡ hit entry score
      → (n : o.Score) × (t ≡ some n)
  unfolding search_db
  hit-search_db c q model (some n) entry score h = (n, refl)
  hit-search_db c q model none entry score h = elim (Bool-cases (eqb (o.ntotal c.db.index) 0)) [
    | inl e ↦ let no_hit : miss ≡ hit entry score = rw (search_db, e) at h in cc
    | inr e ↦ elim (Option-cases (o.nearest c.db.index q)) [
      | inl f ↦ let no_hit : miss ≡ hit entry score = rw (search_db, e, f) at h in cc
      | inr (p, f) ↦ let no_hit : raised ≡ hit entry score = rw (search_db, e, f) at h in cc
    ]
  ]

  -- A search that finds something has embedded the messages and compares with a number.
  pub hit-search :
      (c : SemanticCache o) (messages model : Value) (t : Option (Option o.Score)) (entry : Entry)
      (score : o.Score)
      → search o c messages model t ≡ hit entry score
      → (q : o.Embedding) × (n : o.Score) × (o.get_embedding messages ≡ some q)
        × (threshold_or o c t ≡ some n)
  unfolding search
  hit-search c messages model t entry score h = elim (Option-cases (o.get_embedding messages)) [
    | inl e ↦ let no_hit : raised ≡ hit entry score = rw (search, e) at h in cc
    | inr (q, e) ↦
        let (n, f) =
          hit-search_db c q model (threshold_or o c t) entry score (rw (search, e) at h) in
        (q, n, e, f)
  ]

module _ (o : Outside) (score_of : Value → Option o.Score) (score_value : o.Score → Value) where
  cached-conclude :
      (id : String) (created : ℕ) (model : Value) (s : Chats o) (found : Search o) (r : Fields)
      → (conclude o score_of score_value id created model s found).1 ≡ cached r
      → (entry : Entry) × (score : o.Score) × (found ≡ hit entry score)
        × (r ≡ response_of o score_of score_value id created model entry score)
  unfolding conclude
  cached-conclude id created model s (hit entry score) r h =
      elim (Bool-cases (loggable (Value.arr entry.response_messages))) [
        | inl e ↦
            let answer : cached (response_of o score_of score_value id created model entry score)
                ≡ cached r =
              rw (conclude, e) at h in
            (entry, score, refl, cc)
        | inr e ↦ let no_answer : check_raised ≡ cached r = rw (conclude, e) at h in cc
      ]
  cached-conclude id created model s miss r h = cc
  cached-conclude id created model s raised r h = cc

  pub cached-look_up :
      (id : String) (created : ℕ) (s : Chats o) (c : SemanticCache o) (body r : Fields)
      → (look_up o score_of score_value id created s c body).1 ≡ cached r
      → (entry : Entry) × (score : o.Score) × (search o c
            (messages_in_body body)
            (model_in body)
            (threshold_in o score_of score_value body)
          ≡ hit entry score)
        × (r ≡ response_of o score_of score_value id created (model_in body) entry score)
  unfolding look_up
  cached-look_up id created s c body r h =
      elim (Bool-cases (flag "skip_cache" body || not (truthy (messages_in_body body)))) [
        | inl e ↦ let no_answer : forward ≡ cached r = rw (look_up, e) at h in cc
        | inr e ↦ elim (Bool-cases (loggable (messages_in_body body))) [
          | inl f ↦
              cached-conclude id created (model_in body) s
                (search o c (messages_in_body body) (model_in body)
                  (threshold_in o score_of score_value body))
                r (rw (look_up, e, f) at h)
          | inr f ↦ let no_answer : check_raised ≡ cached r = rw (look_up, e, f) at h in cc
        ]
      ]
