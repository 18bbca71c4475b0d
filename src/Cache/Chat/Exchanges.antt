-- ===== src/Cache/Chat/Exchanges.antt =====
-- The exchanges that have been handed to the cache, one after the other, and what it keeps of them.
use vllm_production_stack_cu.Base.{
  ◌≡◌, refl, sym, ap, ◌∙◌, true, none, some, List, [], ◌∷◌, map, In, In-append, In-append_left,
  In-append_right, string_eq, ◌⊎◌, inl, inr, Option-cases, Bool-cases,
}
use vllm_production_stack_cu.Cache.{Outside, Entry, SemanticCache, store}
use vllm_production_stack_cu.Cache.History.{Call, store_chat, call, calls, chat_of, chats}
use vllm_production_stack_cu.Cache.Chat.{
  Exchange, entry_of, Chats, store_in_semantic_cache, stored_in,
}

-- the entries of the exchanges that are handed to the cache
unfoldable pub entries_of : List Exchange → List Entry
entries_of [] = []
entries_of (x ∷ xs) =
    let rest = entries_of xs in elim (entry_of x) [ none ↦ rest | some entry ↦ entry ∷ rest ]

pub In-entries_of :
    (entry : Entry) (xs : List Exchange)
    → In entry (entries_of xs)
    → (x : Exchange) × In x xs × (entry_of x ≡ some entry)
unfolding entries_of
In-entries_of entry [] m = elim m [ ]
In-entries_of entry (x ∷ xs) m = elim (Option-cases (entry_of x)) [
  | inl e ↦
      let (y, place, f) = In-entries_of entry xs (rw (entries_of, e) at m) in (y, inr place, f)
  | inr (first, e) ↦
      let here : (entry ≡ first) ⊎ In entry (entries_of xs) = rw (entries_of, e) at m in
      elim here [
        | inl same ↦ (x, inl refl, e ∙ ap some (sym same))
        | inr later ↦ let (y, place, f) = In-entries_of entry xs later in (y, inr place, f)
      ]
]

pub entries_of-In :
    (entry : Entry) (x : Exchange) (xs : List Exchange)
    → In x xs
    → entry_of x ≡ some entry
    → In entry (entries_of xs)
unfolding entries_of
entries_of-In entry x [] m e = elim m [ ]
entries_of-In entry x (y ∷ xs) (inl same) e =
    let e' : entry_of y ≡ some entry = ap entry_of (sym same) ∙ e in rw (entries_of, e') (inl refl)
entries_of-In entry x (y ∷ xs) (inr m) e = elim (Option-cases (entry_of y)) [
  | inl f ↦ rw (entries_of, f) (entries_of-In entry x xs m e)
  | inr (first, f) ↦ rw (entries_of, f) (inr (entries_of-In entry x xs m e))
]

module _ (o : Outside) where
  abbrev pub store_all : List Entry → List (Call o)
  store_all es = map store_chat es

  In-chat_of :
      (c : SemanticCache o) (entry : Entry) (p : o.Embedding × Entry)
      → In p (chat_of o c (store_chat entry))
      → (p.1 ≡ entry) × (o.get_embedding entry.request_messages ≡ some p.0)
  unfolding chat_of
  In-chat_of c entry p m = elim (Option-cases (o.get_embedding entry.request_messages)) [
    | inl e ↦ absurd (rw (chat_of, e) at m)
    | inr (v, e) ↦
        let here : (p ≡ (v, entry)) ⊎ ⊥ = rw (chat_of, e) at m in
        elim here [
          | inl same ↦ (ap (λ x. x.1) same, e ∙ ap (λ x. some x.0) (sym same))
          | inr no_more ↦ absurd no_more
        ]
  ]

  chat_of-In :
      (c : SemanticCache o) (entry : Entry) (v : o.Embedding)
      → o.get_embedding entry.request_messages ≡ some v
      → In (v, entry) (chat_of o c (store_chat entry))
  unfolding chat_of
  chat_of-In c entry v e = rw (chat_of, e) (inl refl)

  pub In-chats :
      (c : SemanticCache o) (es : List Entry) (p : o.Embedding × Entry)
      → In p (chats o c (store_all es))
      → In p.1 es × (o.get_embedding p.1.request_messages ≡ some p.0)
  unfolding chats
  In-chats c [] p m = elim m [ ]
  In-chats c (entry ∷ es) p m =
      let c' = call o c (store_chat entry) in
      elim (In-append p (chat_of o c (store_chat entry)) (chats o c' (store_all es)) m) [
        | inl here ↦
            let (same, e) = In-chat_of c entry p here in
            (inl same, ap (λ (x : Entry). o.get_embedding x.request_messages) same ∙ e)
        | inr later ↦ let (place, e) = In-chats c' es p later in (inr place, e)
      ]

  pub chats-In :
      (c : SemanticCache o) (es : List Entry) (entry : Entry) (v : o.Embedding)
      → In entry es
      → o.get_embedding entry.request_messages ≡ some v
      → In (v, entry) (chats o c (store_all es))
  unfolding chats
  chats-In c [] entry v m e = elim m [ ]
  chats-In c (first ∷ es) entry v (inl same) e =
      let first_e : o.get_embedding first.request_messages ≡ some v =
        ap (λ (x : Entry). o.get_embedding x.request_messages) (sym same) ∙ e in
      In-append_left (v, entry) (chat_of o c (store_chat first))
        (chats o (call o c (store_chat first)) (store_all es))
        (rw same (chat_of-In c first v first_e))
  chats-In c (first ∷ es) entry v (inr m) e =
      In-append_right (v, entry) (chat_of o c (store_chat first))
        (chats o (call o c (store_chat first)) (store_all es))
        (chats-In (call o c (store_chat first)) es entry v m e)

  -- the exchanges in their order
  unfoldable pub exchanges : Chats o → List Exchange → Chats o
  exchanges s [] = s
  exchanges s (x ∷ xs) = exchanges (store_in_semantic_cache o true s x) xs

  exchange-cache :
      (s : Chats o) (c : SemanticCache o) (x : Exchange)
      → s.cache ≡ some c
      → (store_in_semantic_cache o true s x).cache
        ≡ some (elim (entry_of x) [ none ↦ c | some entry ↦ call o c (store_chat entry) ])
  unfolding store_in_semantic_cache stored_in call
  exchange-cache s c x e = elim (Option-cases (entry_of x)) [
    | inl f ↦ rw (e, f, store_in_semantic_cache) e
    | inr (entry, f) ↦ elim (Bool-cases (store o c entry).1) [
      | inl t ↦ rw (e, f, store_in_semantic_cache, stored_in, t, call) refl
      | inr t ↦ rw (e, f, store_in_semantic_cache, stored_in, t, call) refl
    ]
  ]

  pub exchanges-cache :
      (s : Chats o) (c : SemanticCache o) (xs : List Exchange)
      → s.cache ≡ some c
      → (exchanges s xs).cache ≡ some (calls o c (store_all (entries_of xs)))
  unfolding exchanges entries_of calls
  exchanges-cache s c [] e = e
  exchanges-cache s c (x ∷ xs) e = elim (Option-cases (entry_of x)) [
    | inl f ↦
        rw (f, entries_of, calls)
          (exchanges-cache (store_in_semantic_cache o true s x) c xs
            (rw f at (exchange-cache s c x e)))
    | inr (entry, f) ↦
        rw (f, entries_of, calls)
          (exchanges-cache (store_in_semantic_cache o true s x) (call o c (store_chat entry)) xs
            (rw f at (exchange-cache s c x e)))
  ]
