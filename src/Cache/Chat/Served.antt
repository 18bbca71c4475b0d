-- ===== src/Cache/Chat/Served.antt =====
-- A request that is answered from the cache gets the answer of an earlier chat.
use vllm_production_stack_cu.Base.{
  ℕ, suc, String, ◌≡◌, refl, sym, ap, subst, ◌∙◌, true, Option, none, some, List, In, All-In,
  string_eq, inl, inr, Bool-cases, Option-cases, arith, none, ◌&&◌, ◌||◌, ◌==◌,
}
use vllm_production_stack_cu.Base.Json.{Value, Items, Fields, nil, item, find, find_or}
use vllm_production_stack_cu.Cache.{Outside, IsFlat, Entry, hit, miss, new_cache, search}
use vllm_production_stack_cu.Cache.History.{calls, chats}
use vllm_production_stack_cu.Cache.Lookup.{verdict, search-IsFound}
use vllm_production_stack_cu.Cache.Chat.{
  Exchange, flag, no_usage, entry_in, entry_of_bodies, entry_of, cached, response_of,
  check_semantic_cache, choices_from, threshold_in, messages_in_body,
}
use vllm_production_stack_cu.Cache.Chat.Messages.{loggable, messages_of_choices}
use vllm_production_stack_cu.Cache.Chat.Exchanges.{
  entries_of, store_all, In-chats, chats-In, exchanges, exchanges-cache, In-entries_of,
  entries_of-In,
}
use vllm_production_stack_cu.Cache.Chat.Hits.{
  new_chats, threshold_for, calls-threshold, hit-search, cached-look_up,
}

-- The entry is what a chat with the endpoint for chats leaves: the messages and the model of its
-- request, and the messages and the usage of its answer.
pub record IsKept (x : Exchange) (entry : Entry) : Type 0 where
  pub request : Fields
  pub response : Fields
  pub to_chats : x.endpoint ≡ "/v1/chat/completions"
  pub posted : x.method ≡ "POST"
  pub asked_with : x.body ≡ some (Value.obj request)
  pub answered_with : x.chunk ≡ some (Value.obj response)
  pub messages : entry.request_messages ≡ find_or "messages" (Value.arr nil) request
  pub model : entry.model ≡ find_or "model" (Value.str "") request
  pub replies : messages_of_choices (find "choices" response) ≡ some entry.response_messages
  pub usage : entry.usage ≡ find_or "usage" no_usage response

entry_in-kept :
    (request response : Fields) (entry : Entry)
    → entry_in request response ≡ some entry
    → (entry.request_messages ≡ find_or "messages" (Value.arr nil) request)
      × (entry.model ≡ find_or "model" (Value.str "") request)
      × (messages_of_choices (find "choices" response) ≡ some entry.response_messages)
      × (entry.usage ≡ find_or "usage" no_usage response)
unfolding entry_in
entry_in-kept request response entry h =
    elim (Option-cases (messages_of_choices (find "choices" response))) [
      | inl e ↦ let wrong : none ≡ some entry = rw (entry_in, e) at h in cc
      | inr (ms, e) ↦
          elim (Bool-cases (loggable (messages_in_body request) && loggable (Value.arr ms))) [
            | inr f ↦ let wrong : none ≡ some entry = rw (entry_in, e, f) at h in cc
            | inl t ↦
                let made : some (record {
                  request_messages = messages_in_body request;
                  response_messages = ms;
                  model = find_or "model" (Value.str "") request;
                  usage = find_or "usage" no_usage response;
                })
                    ≡ some entry =
                  rw (entry_in, e, t) at h in
                (
                  ground (arith, made),
                  ground (arith, made),
                  ground (arith, made, e),
                  ground (arith, made),
                )
          ]
    ]

bodies-entry_in :
    (b c : Option Value) (entry : Entry)
    → entry_of_bodies b c ≡ some entry
    → (request response : Fields) × (b ≡ some (Value.obj request))
      × (c ≡ some (Value.obj response))
      × (entry_in request response ≡ some entry)
unfolding entry_of_bodies
bodies-entry_in (some (Value.obj request)) (some (Value.obj response)) entry h =
    elim (Bool-cases (flag "skip_cache" request || flag "stream" request)) [
      | inl t ↦ let wrong : none ≡ some entry = rw (entry_of_bodies, t) at h in cc
      | inr f ↦ (request, response, refl, refl, rw (entry_of_bodies, f) at h)
    ]
bodies-entry_in _ _ entry h = cc

entry_of-IsKept : (x : Exchange) (entry : Entry) → entry_of x ≡ some entry → IsKept x entry
unfolding entry_of entry_of_bodies
entry_of-IsKept x entry h =
    elim (Bool-cases ((x.endpoint == "/v1/chat/completions") && (x.method == "POST"))) [
      | inr f ↦ let wrong : none ≡ some entry = rw (entry_of, f) at h in cc
      | inl t ↦
          let (request, response, b, c, made) =
            bodies-entry_in x.body x.chunk entry (rw (entry_of, t) at h) in
          let (messages, model, replies, usage) = entry_in-kept request response entry made in
          record {
            request = request;
            response = response;
            to_chats = (string_eq.same_iff x.endpoint "/v1/chat/completions").0 (ground (arith, t));
            posted = (string_eq.same_iff x.method "POST").0 (ground (arith, t));
            asked_with = b;
            answered_with = c;
            messages = messages;
            model = model;
            replies = replies;
            usage = usage;
          }
    ]

module _ (o : Outside) (score_of : Value → Option o.Score) (score_value : o.Score → Value) where
  -- The threshold of the request as a number, or the default one where it has none or null.
  abbrev pub IsThreshold : o.Score → Option Value → o.Score → Type 0
  IsThreshold default none threshold = threshold ≡ default
  IsThreshold default (some Value.null) threshold = threshold ≡ default
  IsThreshold default (some v) threshold = score_of v ≡ some threshold

  -- one choice for each message, with its number from the given one on
  abbrev pub AreChoices : ℕ → Items → Items → Type 0
  AreChoices i nil nil = Unit
  AreChoices i (item m ms) (item (Value.obj c) cs) =
      (find "index" c ≡ some (Value.num i)) × (find "message" c ≡ some m) × AreChoices (suc i) ms cs
  AreChoices i _ _ = ⊥

  -- the answer of an entry: its messages in order, its usage, and its score
  abbrev pub IsAnswer : Value → Entry → o.Score → Fields → Type 0
  IsAnswer model entry score r =
      ((choices : Items) × (find "choices" r ≡ some (Value.arr choices))
        × AreChoices 0 entry.response_messages choices)
      × (find "model" r ≡ some model)
      × (find "usage" r ≡ some entry.usage)
      × (find "cached" r ≡ some (Value.bool true))
      × (find "similarity_score" r ≡ some (score_value score))

  choices_from-AreChoices : (i : ℕ) (ms : Items) → AreChoices i ms (choices_from o i ms)
  unfolding choices_from find
  choices_from-AreChoices i nil = tt
  choices_from-AreChoices i (item m ms) = (refl, refl, choices_from-AreChoices (suc i) ms)

  response_of-IsAnswer :
      (id : String) (created : ℕ) (model : Value) (entry : Entry) (score : o.Score)
      → IsAnswer model entry score (response_of o score_of score_value id created model entry score)
  unfolding response_of find
  response_of-IsAnswer id created model entry score = (
    (
      choices_from o 0 entry.response_messages,
      refl,
      choices_from-AreChoices 0 entry.response_messages,
    ),
    refl,
    refl,
    refl,
    refl,
  )

  threshold_for-IsThreshold :
      (default : o.Score) (body : Fields) (threshold : o.Score)
      → (v : Option Value) → find "cache_similarity_threshold" body ≡ v
      → threshold_for o default (threshold_in o score_of score_value body) ≡ some threshold
      → IsThreshold default v threshold
  unfolding threshold_in
  threshold_for-IsThreshold default body threshold none e a =
      let b : some default ≡ some threshold = rw (threshold_in, e) at a in cc
  threshold_for-IsThreshold default body threshold (some Value.null) e a =
      let b : some default ≡ some threshold = rw (threshold_in, e) at a in cc
  threshold_for-IsThreshold default body threshold (some v) e a = rw (threshold_in, e) at a

  module _ (law : IsFlat o) where
    -- The answer is that of an exchange that was kept, for the same model, whose messages are as near
    -- as the threshold asks for, and no other exchange that was kept is nearer.
    pub record IsServed (xs : List Exchange) (default : o.Score) (body r : Fields) : Type 0 where
      pub exchange : Exchange
      pub entry : Entry
      pub of_entry : o.Embedding
      pub of_request : o.Embedding
      pub threshold : o.Score
      pub place : In exchange xs
      pub kept : IsKept exchange entry
      pub embedded : o.get_embedding entry.request_messages ≡ some of_entry
      pub request_embedded :
          o.get_embedding (find_or "messages" (Value.arr nil) body) ≡ some of_request
      pub asked : IsThreshold default (find "cache_similarity_threshold" body) threshold
      pub near : o.at_least (law.inner of_request of_entry) threshold ≡ true
      pub same_model : o.same_value entry.model (find_or "model" (Value.str "") body) ≡ true
      pub nearest :
          (x : Exchange) (e : Entry) (v : o.Embedding)
          → In x xs
          → entry_of x ≡ some e
          → o.get_embedding e.request_messages ≡ some v
          → o.at_least (law.inner of_request of_entry) (law.inner of_request v) ≡ true
      pub answer :
          IsAnswer (find_or "model" (Value.str "") body) entry (law.inner of_request of_entry) r

    hit-verdict :
        (q : o.Embedding) (model : Value) (t : o.Score) (p : o.Embedding × Entry) (entry : Entry)
        (score : o.Score)
        → verdict o law q model t p ≡ hit entry score
        → (o.at_least (law.inner q p.0) t ≡ true)
          × (o.same_value p.1.model model ≡ true)
          × (entry ≡ p.1)
          × (score ≡ law.inner q p.0)
    hit-verdict q model t (v, e) entry score h = elim (Bool-cases (o.at_least (law.inner q v) t)) [
      | inl near ↦ elim (Bool-cases (o.same_value e.model model)) [
        | inl same ↦
            let found : hit e (law.inner q v) ≡ hit entry score = rw (near, same) at h in
            (near, same, cc, cc)
        | inr same ↦ let no_hit : miss ≡ hit entry score = rw (near, same) at h in cc
      ]
      | inr far ↦ let no_hit : miss ≡ hit entry score = rw far at h in cc
    ]

    found-IsServed :
        (xs : List Exchange) (default : o.Score) (id : String) (created : ℕ) (body r : Fields)
        → (entry : Entry) (score : o.Score)
        → search o
            (calls o (new_cache o none default) (store_all o (entries_of xs)))
            (find_or "messages" (Value.arr nil) body)
            (find_or "model" (Value.str "") body)
            (threshold_in o score_of score_value body)
          ≡ hit entry score
        → r
          ≡ response_of o score_of score_value id created
              (find_or "model" (Value.str "") body)
              entry
              score
        → IsServed xs default body r
    unfolding new_cache
    found-IsServed xs default id created body r entry score h answer =
        let es = entries_of xs in
        let start = new_cache o none default in
        let asked = threshold_in o score_of score_value body in
        let (q, t, embedded, number) =
          hit-search o (calls o start (store_all o es)) (find_or "messages" (Value.arr nil) body)
            (find_or "model" (Value.str "") body) asked entry score h in
        elim (search-IsFound o law (store_all o es) default t
          (find_or "messages" (Value.arr nil) body) (find_or "model" (Value.str "") body) q asked
          embedded number) [
            | inl (empty, nothing) ↦ let no_hit : miss ≡ hit entry score = sym nothing ∙ h in cc
            | inr (p, kept, nearest, decided) ↦
                let (near, same, same_entry, same_score) =
                  hit-verdict q (find_or "model" (Value.str "") body) t p entry score
                    (sym decided ∙ h) in
                let (member, vector) = In-chats o start es p kept in
                let (x, place, from) = In-entries_of p.1 xs member in
                record {
                  exchange = x;
                  entry = p.1;
                  of_entry = p.0;
                  of_request = q;
                  threshold = t;
                  place = place;
                  kept = entry_of-IsKept x p.1 from;
                  embedded = vector;
                  request_embedded = embedded;
                  asked =
                      threshold_for-IsThreshold default body t
                        (find "cache_similarity_threshold" body) refl
                        (sym (calls-threshold o start es asked) ∙ number);
                  near = near;
                  same_model = same;
                  nearest = λ y e v m f g.
                      All-In (λ other. o.at_least (law.inner q p.0) (law.inner q other.0) ≡ true)
                        (chats o start (store_all o es)) nearest
                        (chats-In o start es e v (entries_of-In e y xs m f) g);
                  answer =
                      subst (IsAnswer (find_or "model" (Value.str "") body) p.1 (law.inner q p.0))
                        (sym (
                          answer
                          ∙ ap
                              (λ e.
                                response_of o score_of score_value id created
                                  (find_or "model" (Value.str "") body) e score)
                              same_entry
                          ∙ ap
                              (λ n.
                                response_of o score_of score_value id created
                                  (find_or "model" (Value.str "") body) p.1 n)
                              same_score))
                        (response_of-IsAnswer id created (find_or "model" (Value.str "") body) p.1
                          (law.inner q p.0));
                }
          ]

    -- With an index that finds a greatest inner product and a new cache that is enabled: a request
    -- that is answered from the cache gets the messages, in order, and the usage of an earlier exchange that was kept, with the
    -- same model and with messages whose score is at least the threshold, that of the request or else
    -- the default one, and no other exchange that was kept has a greater score.
    pub check_semantic_cache-IsServed :
        (xs : List Exchange) (default : o.Score) (id : String) (created : ℕ) (body r : Fields)
        → (check_semantic_cache o score_of score_value true id created
            (exchanges o (new_chats o default) xs)
            (some (Value.obj body))).1
          ≡ cached r
        → IsServed xs default body r
    unfolding check_semantic_cache new_chats
    check_semantic_cache-IsServed xs default id created body r h =
        let c = calls o (new_cache o none default) (store_all o (entries_of xs)) in
        let held : (exchanges o (new_chats o default) xs).cache ≡ some c =
          exchanges-cache o (new_chats o default) (new_cache o none default) xs refl in
        let (entry, score, found, answer) =
          cached-look_up o score_of score_value id created (exchanges o (new_chats o default) xs) c
            body r (rw (check_semantic_cache, held) at h) in
        found-IsServed xs default id created body r entry score found answer
