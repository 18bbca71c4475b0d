-- ===== src/Cache/Lookup.antt =====
-- What a search finds after any calls.
use vllm_production_stack_cu.Base.{
  ℕ, suc, zero, ◌≡◌, refl, sym, ap, ◌∙◌, true, false, Option, none, some, List, [], ◌∷◌, ◌++◌, map,
  length, get_elem?, All, In, get_elem?-In, eqb, eqb_iff, arith, string_eq, if◌then◌else◌, ◌⊎◌, inl,
  inr, Option-cases,
}
use mathlib.Core.List.{append-nil, append_assoc, map-append}
use vllm_production_stack_cu.Base.Dict.{get}
use vllm_production_stack_cu.Base.Json.{Value}
use vllm_production_stack_cu.Cache.{
  Outside, IsFlat, Entry, FaissAdapter, Search, hit, miss, new_adapter, found_entry, search_db,
  store_db, SemanticCache, new_cache, search, store, initiate_search, complete_search,
  initiate_store, complete_store, completed, threshold_or,
}
use vllm_production_stack_cu.Cache.History.{
  Call, store_chat, start_search, end_search, start_store, end_store, call, calls, chat_of, chats,
}

get_elem?-map :
    {A B : Type 0} (f : A → B) (xs : List A) (i : ℕ) {b : B}
    → get_elem? (map f xs) i ≡ some b
    → (a : A) × (get_elem? xs i ≡ some a) × (b ≡ f a)
get_elem?-map f [] i e = absurd cc
get_elem?-map f (x ∷ xs) zero e = (x, refl, cc)
get_elem?-map f (x ∷ xs) (suc i) e = get_elem?-map f xs i e

get_elem?_of_map :
    {A B : Type 0} (f : A → B) (xs : List A) (i : ℕ) {a : A}
    → get_elem? xs i ≡ some a
    → get_elem? (map f xs) i ≡ some (f a)
get_elem?_of_map f [] i e = absurd cc
get_elem?_of_map f (x ∷ xs) zero e = cc
get_elem?_of_map f (x ∷ xs) (suc i) e = get_elem?_of_map f xs i e

All-map :
    {A B : Type 0} (P : B → Type 0) (f : A → B) (xs : List A)
    → All P (map f xs)
    → All (λ a. P (f a)) xs
All-map P f [] h = tt
All-map P f (x ∷ xs) h = (h.0, All-map P f xs h.1)

module _ (o : Outside) (law : IsFlat o) where
  open o use {Embedding, Score, get_embedding, at_least, same_value}

  -- The index has the embeddings of the given chats and the metadata their entries, in order.
  record IsAligned (db : FaissAdapter o) (kept : List (Embedding × Entry)) : Type 0 where
    vectors_kept : law.vectors db.index ≡ map (λ p. p.0) kept
    entries_kept : db.metadata ≡ map (λ p. p.1) kept

  store_db-IsAligned :
      (db : FaissAdapter o) (kept : List (Embedding × Entry)) (e : Embedding) (entry : Entry)
      → IsAligned db kept
      → IsAligned (store_db o db e entry) (kept ++ (e, entry) ∷ [])
  unfolding store_db
  store_db-IsAligned db kept e entry a = record {
    vectors_kept =
        law.vectors-add e db.index
        ∙ ap (λ v. v ++ e ∷ []) a.vectors_kept
        ∙ sym (map-append (λ p. p.0) kept ((e, entry) ∷ []));
    entries_kept =
        ap (λ m. m ++ entry ∷ []) a.entries_kept
        ∙ sym (map-append (λ p. p.1) kept ((e, entry) ∷ []));
  }

  call-IsAligned :
      (c : SemanticCache o) (kept : List (Embedding × Entry)) (x : Call o)
      → IsAligned c.db kept
      → IsAligned (call o c x).db (kept ++ chat_of o c x)
  unfolding call chat_of store initiate_search complete_search initiate_store complete_store
  call-IsAligned c kept (store_chat entry) a =
      elim (Option-cases (get_embedding entry.request_messages)) [
        | inl e ↦ rw (e, call, chat_of, store, append-nil) a
        | inr (v, e) ↦ rw (e, call, chat_of, store) (store_db-IsAligned c.db kept v entry a)
      ]
  call-IsAligned c kept (start_search id messages model t) a =
      elim (Option-cases (get_embedding messages)) [
        | inl e ↦ rw (e, call, chat_of, initiate_search, append-nil) a
        | inr (v, e) ↦ rw (e, call, chat_of, initiate_search, append-nil) a
      ]
  call-IsAligned c kept (end_search id) a = elim (Option-cases (get id c.pending_searches)) [
    | inl e ↦ rw (e, call, chat_of, complete_search, append-nil) a
    | inr (v, e) ↦ rw (e, call, chat_of, complete_search, append-nil) a
  ]
  call-IsAligned c kept (start_store id messages model) a =
      elim (Option-cases (get_embedding messages)) [
        | inl e ↦ rw (e, call, chat_of, initiate_store, append-nil) a
        | inr (v, e) ↦ rw (e, call, chat_of, initiate_store, append-nil) a
      ]
  call-IsAligned c kept (end_store id responses usage) a =
      elim (Option-cases (get id c.pending_stores)) [
        | inl e ↦ rw (e, call, chat_of, complete_store, append-nil) a
        | inr (v, e) ↦
            rw (e, call, chat_of, complete_store)
              (store_db-IsAligned c.db kept v.embedding (completed o v responses usage) a)
      ]

  calls-IsAligned :
      (c : SemanticCache o) (kept : List (Embedding × Entry)) (xs : List (Call o))
      → IsAligned c.db kept
      → IsAligned (calls o c xs).db (kept ++ chats o c xs)
  unfolding calls chats
  calls-IsAligned c kept [] a = rw append-nil a
  calls-IsAligned c kept (x ∷ xs) a =
      rw (← append_assoc)
        (calls-IsAligned (call o c x) (kept ++ chat_of o c x) xs (call-IsAligned c kept x a))

  -- what is answered when a chat is the nearest
  abbrev pub verdict : Embedding → Value → Score → Embedding × Entry → Search o
  verdict q model t (e, entry) =
      if at_least (law.inner q e) t
      then (if same_value entry.model model then hit entry (law.inner q e) else miss)
      else miss

  -- No chat was stored and nothing is found, or the answer is decided by a chat that no other is
  -- nearer than.
  abbrev pub IsFound : List (Embedding × Entry) → Embedding → Value → Score → Search o → Type 0
  IsFound kept q model t answer =
      ((kept ≡ []) × (answer ≡ miss))
      ⊎ ((p : Embedding × Entry) × In p kept
          × All (λ other. at_least (law.inner q p.0) (law.inner q other.0) ≡ true) kept
          × (answer ≡ verdict q model t p))

  -- the answer when a place of the index was found
  answer-IsFound :
      (db : FaissAdapter o) (kept : List (Embedding × Entry)) (q : Embedding) (model : Value)
      (t s : Score)
      → (i : ℕ) (p : Embedding × Entry) → IsAligned db kept
      → get_elem? kept i ≡ some p
      → s ≡ law.inner q p.0
      → All (λ e. at_least s (law.inner q e) ≡ true) (law.vectors db.index)
      → IsFound kept q model t
          (if at_least s t then found_entry o (get_elem? db.metadata i) model s else miss)
  unfolding found_entry
  answer-IsFound db kept q model t s i p a place same greatest =
      let entry : get_elem? db.metadata i ≡ some p.1 =
        ap (λ m. get_elem? m i) a.entries_kept ∙ get_elem?_of_map (λ x. x.1) kept i place in
      let nearer : All (λ x. at_least s (law.inner q x.0) ≡ true) kept =
        All-map (λ e. at_least s (law.inner q e) ≡ true) (λ x. x.0) kept
          (rw a.vectors_kept at greatest) in
      rw (entry, found_entry, same) (inr (p, get_elem?-In kept i place, rw same at nearer, refl))

  nearest-IsFound :
      (db : FaissAdapter o) (kept : List (Embedding × Entry)) (q : Embedding) (model : Value)
      (t : Score)
      → IsAligned db kept
      → eqb (o.ntotal db.index) 0 ≡ false
      → IsFound kept q model t (search_db o db q model (some t))
  unfolding search_db
  nearest-IsFound db kept q model t a full = elim (Option-cases (o.nearest db.index q)) [
    | inl e ↦
        let empty : law.vectors db.index ≡ [] = law.none_found db.index q e in
        absurd (ground (arith, full, law.ntotal-length db.index, ap length empty))
    | inr ((i, s), e) ↦
        let (v, at, same, greatest) = law.found db.index q i s e in
        let (p, place, embedded) = get_elem?-map (λ x. x.0) kept i (rw a.vectors_kept at at) in
        rw (full, e, search_db)
          (answer-IsFound db kept q model t s i p a place (rw embedded at same) greatest)
  ]

  search_db-IsFound :
      (db : FaissAdapter o) (kept : List (Embedding × Entry)) (q : Embedding) (model : Value)
      (t : Score)
      → IsAligned db kept
      → IsFound kept q model t (search_db o db q model (some t))
  unfolding search_db
  search_db-IsFound db [] q model t a =
      let empty : eqb (o.ntotal db.index) 0 ≡ true =
        (eqb_iff (o.ntotal db.index) 0).1 (law.ntotal-length db.index ∙ ap length a.vectors_kept) in
      rw (search_db, empty) (inl (refl, refl))
  search_db-IsFound db (p ∷ kept) q model t a =
      nearest-IsFound db (p ∷ kept) q model t a
        (ground (arith, law.ntotal-length db.index, ap length a.vectors_kept))

  search_number :
      (c : SemanticCache o) (messages model : Value) (q : Embedding) (t : Score)
      → (threshold : Option (Option Score)) → get_embedding messages ≡ some q
      → threshold_or o c threshold ≡ some t
      → search o c messages model threshold ≡ search_db o c.db q model (some t)
  unfolding search
  search_number c messages model q t threshold embedded number =
      rw (embedded, search) (ap (λ x. search_db o c.db q model x) number)

  -- With an index that finds a greatest inner product: after any calls on a new cache, a search for
  -- messages that can be embedded, with a threshold that is a number, is decided by a chat that was
  -- stored and that no other is nearer than: its entry is the answer if its score is at least the
  -- threshold and it has the model, and else nothing is found, as when no chat was stored.
  pub search-IsFound :
      (xs : List (Call o)) (default t : Score) (messages model : Value) (q : Embedding)
      → (threshold : Option (Option Score)) → get_embedding messages ≡ some q
      → threshold_or o (calls o (new_cache o none default) xs) threshold ≡ some t
      → IsFound
          (chats o (new_cache o none default) xs)
          q
          model
          t
          (search o (calls o (new_cache o none default) xs) messages model threshold)
  unfolding new_cache new_adapter
  search-IsFound xs default t messages model q threshold embedded number =
      let start : IsAligned (new_cache o none default).db [] = record {
        vectors_kept = law.vectors-empty;
        entries_kept = refl;
      } in
      let c = calls o (new_cache o none default) xs in
      let kept = chats o (new_cache o none default) xs in
      rw (search_number c messages model q t threshold embedded number) (
        search_db-IsFound c.db kept q model t
          (calls-IsAligned (new_cache o none default) [] xs start))
