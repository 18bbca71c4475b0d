-- ===== src/Routing/PrefixAware/Affinity.antt =====
-- The prefix-aware router chooses an endpoint, and a prompt that comes again finds its endpoint.
use vllm_production_stack_cu.Base.{
  ℕ, zero, suc, ◌*◌, ◌<◌, String, ◌≡◌, refl, sym, ap, ◌∙◌, true, false, Option, some, List, [], ◌∷◌,
  ◌++◌, arith, length, get_elem?_of_lt, get_elem?-In, In, string_eq, inl, inr, take, is_empty,
}
use vllm_production_stack_cu.Base.Dict.{mem, to_set, mem-to_set, mem-In, In-mem}
use vllm_production_stack_cu.Discovery.{EndpointInfo, urls}
use vllm_production_stack_cu.HashTrie.{HashTrie, new_trie, insert, longest_prefix_match, match_loop}
use vllm_production_stack_cu.HashTrie.Trie.{is_prefix}
use vllm_production_stack_cu.HashTrie.Match.{match_loop-Walk, is_empty-match_loop}
use vllm_production_stack_cu.HashTrie.History.{History, hashes, insert_all, sent}
use vllm_production_stack_cu.HashTrie.Longest.{
  longest_prefix_match-IsLongest, match_of_pos, chunk_size-trie,
}
use vllm_production_stack_cu.Routing.PrefixAware.{route_prompt}

is_empty_of_In : (x : String) (s : List String) → mem x s ≡ true → is_empty s ≡ false
unfolding mem
is_empty_of_In x [] h = cc
is_empty_of_In x (y ∷ s) h = refl

length_pos : (s : List String) → is_empty s ≡ false → 0 < length s
length_pos [] h = cc
length_pos (x ∷ s) h = omega arith

is_prefix-take : (k : ℕ) (hs : List ℕ) → is_prefix (take k hs) hs ≡ true
unfolding is_prefix
is_prefix-take zero hs = refl
is_prefix-take (suc k) [] = refl
is_prefix-take (suc k) (h ∷ hs) = ground (arith, is_prefix-take k hs)

module _ (xxh64 : List ℕ → ℕ) (size : ℕ) where
  insert_all-append :
      (t : HashTrie) (history : History) (p : List ℕ) (u : String)
      → insert_all xxh64 size t (history ++ (p, u) ∷ [])
        ≡ (insert xxh64 (insert_all xxh64 size t history) p u).0
  unfolding insert_all
  insert_all-append t [] p u = refl
  insert_all-append t ((q, e) ∷ history) p u = insert_all-append (insert xxh64 t q e).0 history p u

  sent_last :
      (path p : List ℕ) (u : String) (history : History)
      → is_prefix path (hashes xxh64 size p) ≡ true
      → sent xxh64 size u path (history ++ (p, u) ∷ []) ≡ true
  unfolding sent
  sent_last path p u [] h = ground (arith, string_eq.same_iff u u)
  sent_last path p u ((q, e) ∷ history) h = ground (arith, sent_last path p u history h)

  match_last :
      (pos : 0 < size) (history : History) (prompt : List ℕ) (u : String) (available : List String)
      → In u available
      → (matched : ℕ × List String) × (longest_prefix_match xxh64
            (insert_all xxh64 size (new_trie size) (history ++ (prompt, u) ∷ []))
            prompt
            (to_set available)
          ≡ some matched)
        × (matched.0 ≡ length (hashes xxh64 size prompt) * size)
        × (mem u matched.1 ≡ true)
  match_last pos history prompt u available stays =
      let past = history ++ (prompt, u) ∷ [] in
      let (matched, e, best) =
        longest_prefix_match-IsLongest xxh64 size pos past prompt (to_set available) in
      let hs = hashes xxh64 size prompt in
      let here = mem-to_set u available ∙ mem-In u available stays in
      let whole : best.steps ≡ length hs = elim best.maximal [
        | inl end ↦ end
        | inr f ↦
            let x =
              sent_last (take (suc best.steps) hs) prompt u history
                (is_prefix-take (suc best.steps) hs) in
            let y = f u in absurd (ground arith)
      ] in
      (
        matched,
        e,
        best.match_length ∙ ap (λ k. k * size) whole,
        ground (
          arith,
          best.selected u,
          sent_last (take best.steps hs) prompt u history (is_prefix-take best.steps hs),
        ),
      )

  module _ (pos : 0 < size) (pick : ℕ → ℕ) (pick_lt : (n : ℕ) → 0 < n → pick n < n) where
    -- With a chunk size of at least 1 and a random choice that stays within its list, over at least
    -- one endpoint every prompt gets the url of an endpoint, whatever the trie holds, and the trie
    -- learns it.
    pub route_prompt-In :
        (t : HashTrie) (info : EndpointInfo) (rest : List EndpointInfo) (prompt : List ℕ)
        → t.chunk_size ≡ size
        → (u : String) × (route_prompt xxh64 pick t (info ∷ rest) prompt
            ≡ ((insert xxh64 t prompt u).0, some u))
          × In u (urls (info ∷ rest))
    unfolding route_prompt
    route_prompt-In t info rest prompt same =
        let all = to_set (urls (info ∷ rest)) in
        let known =
          mem-to_set info.url (urls (info ∷ rest))
          ∙ mem-In info.url (urls (info ∷ rest)) (inl refl) in
        let hs = hashes xxh64 size prompt in
        let some_left =
          is_empty-match_loop size hs t.root 0 all (is_empty_of_In info.url all known) in
        let matched = (match_loop size hs t.root 0 all).1 in
        let room = length_pos matched some_left in
        let (u, e) =
          get_elem?_of_lt matched (pick (length matched)) (pick_lt (length matched) room) in
        let w = match_loop-Walk size hs t.root 0 all in
        let m = mem-In u matched (get_elem?-In matched _ e) in
        (
          u,
          rw (match_of_pos xxh64 size t prompt all pos same, route_prompt) (rw e refl),
          In-mem u (urls (info ∷ rest))
              (ground (arith, w.kept u, mem-to_set u (urls (info ∷ rest)))),
        )

    -- With a chunk size of at least 1, on a trie made by insertions: once a prompt was routed to
    -- `u`, a prefix match for it among endpoints that still have `u` covers all of its chunks, and
    -- `u` is among the endpoints that are then chosen from.
    pub route_prompt_again :
        (history : History) (info : EndpointInfo) (rest later : List EndpointInfo)
        → (prompt : List ℕ) (u : String)
        → (route_prompt xxh64 pick
            (insert_all xxh64 size (new_trie size) history)
            (info ∷ rest)
            prompt).1
          ≡ some u
        → In u (urls later)
        → (matched : ℕ × List String) × (longest_prefix_match xxh64
              (route_prompt xxh64 pick
                (insert_all xxh64 size (new_trie size) history)
                (info ∷ rest)
                prompt).0
              prompt
              (to_set (urls later))
            ≡ some matched)
          × (matched.0 ≡ length (hashes xxh64 size prompt) * size)
          × (mem u matched.1 ≡ true)
    route_prompt_again history info rest later prompt u answer stays =
        let t = insert_all xxh64 size (new_trie size) history in
        let (v, e, _) =
          route_prompt-In t info rest prompt (chunk_size-trie xxh64 size pos history) in
        let same : v ≡ u = cc (ap (λ (x : HashTrie × Option String). x.1) e) in
        let after : (route_prompt xxh64 pick t (info ∷ rest) prompt).0
            ≡ insert_all xxh64 size (new_trie size) (history ++ (prompt, u) ∷ []) =
          ap (λ (x : HashTrie × Option String). x.0) e
          ∙ ap (λ w. (insert xxh64 t prompt w).0) same
          ∙ sym (insert_all-append (new_trie size) history prompt u) in
        rw after (match_last pos history prompt u (urls later) stays)
