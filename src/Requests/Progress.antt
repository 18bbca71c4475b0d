-- ===== src/Requests/Progress.antt =====
-- `process_request` of src/vllm_router/services/request_service/request.py: what one request tells
-- the monitor, with the chunks of the engine's answer. The semantic cache is not available.
use vllm_production_stack_cu.Base.{
  ℕ, ◌+◌, String, ◌≡◌, refl, sym, ap, ◌∙◌, Bool, true, false, Option, none, some, List, [], ◌∷◌,
  ◌++◌, arith, string_eq, pair_eq, if◌then◌else◌, Bool-cases, inl, inr, ◌&&◌,
}
use mathlib.Core.List.{append-nil, append_assoc}
use vllm_production_stack_cu.Base.Dict.{get_or}
use vllm_production_stack_cu.Stats.Life.Counts.{get_or-increment}
use vllm_production_stack_cu.Base.Floats.{Floats}
use vllm_production_stack_cu.Stats.Monitor.{
  Monitor, on_new_request, on_request_response, on_request_complete,
}
use vllm_production_stack_cu.Stats.Life.{Life, Run, arrive, first_token, complete, and_then}
use vllm_production_stack_cu.Stats.Life.Steps.{on_request_complete-returns}

module _ (fl : Floats) where
  open fl use {F}

  -- How the exchange with the engine goes: when it starts, whether the body is JSON, whether the
  -- connection is made, the chunks with the times of their coming, and, unless the answer breaks
  -- off, the two readings of the clock at the end.
  pub record Exchange : Type 0 where
    pub start_time : F
    pub is_json : Bool
    pub connected : Bool
    pub chunks : List (F × List ℕ)
    pub ended : Option (F × F)

  -- the loop over the chunks, with `first_token` and `full_response`
  unfoldable pub stream_chunks :
      String → String → List (F × List ℕ) → Bool → Monitor fl → List ℕ → Monitor fl × List ℕ
  stream_chunks backend_url request_id [] _ m full_response = (m, full_response)
  stream_chunks backend_url request_id ((now, chunk) ∷ rest) true m full_response =
      stream_chunks backend_url request_id rest true m (full_response ++ chunk)
  stream_chunks backend_url request_id ((now, chunk) ∷ rest) false m full_response =
      stream_chunks backend_url request_id rest true
        (on_request_response fl m backend_url request_id now) (full_response ++ chunk)

  -- The monitor, and the full response for the callback, `none` if the call raises.
  unfoldable pub process_request :
      Monitor fl → String → String → Exchange → Monitor fl × Option (List ℕ)
  unfolding stream_chunks
  process_request m backend_url request_id x =
      let m' = on_new_request fl m backend_url request_id x.start_time in
      if x.is_json
      then (if x.connected
          then (let (m'', full_response) =
                stream_chunks backend_url request_id x.chunks false m' [] in
              elim x.ended [
                | none ↦ (m'', none)
                | some (t, now) ↦
                    let (done, returned) =
                      on_request_complete fl m'' backend_url request_id t now in
                    (done, (if returned then some full_response else none))
              ])
          else (m', none))
      else (m', none)

  -- the contents of the chunks, one after the other
  abbrev pub contents : List (F × List ℕ) → List ℕ
  contents [] = []
  contents ((now, chunk) ∷ rest) = chunk ++ contents rest

  stream_chunks-told :
      (url id : String) (chunks : List (F × List ℕ)) (m : Monitor fl) (before : List ℕ)
      → stream_chunks url id chunks true m before ≡ (m, before ++ contents chunks)
  unfolding stream_chunks
  stream_chunks-told url id [] m before = ap (λ r. (m, r)) (sym (append-nil before))
  stream_chunks-told url id ((now, chunk) ∷ rest) m before =
      stream_chunks-told url id rest m (before ++ chunk)
      ∙ ap (λ r. (m, r)) (append_assoc before chunk (contents rest))

  -- an exchange that goes well, with a first chunk
  abbrev pub completed : F → F → List ℕ → List (F × List ℕ) → F → F → Exchange
  completed start at chunk rest t now = record {
    start_time = start;
    is_json = true;
    connected = true;
    chunks = (at, chunk) ∷ rest;
    ended = some (t, now);
  }

  -- A request with at least one chunk whose answer ends, made in any state that requests with a
  -- first token lead to, leads to such a state again: it is done, every other request is in the
  -- stage it was in, the call does not raise, and the full response is the chunks put together.
  pub process_request-Run :
      (size : F) {m : Monitor fl} {life : Life} (url id : String) (start at t now : F)
      (chunk : List ℕ) (rest : List (F × List ℕ))
      → Run fl size m life
      → Run fl size
          (process_request m url id (completed start at chunk rest t now)).0
          (record life { finished = (url, id) ∷ life.finished })
        × ((process_request m url id (completed start at chunk rest t now)).1
            ≡ some (chunk ++ contents rest))
  unfolding process_request stream_chunks
  process_request-Run size {m} {life} url id start at t now chunk rest r =
      let r' = and_then r (arrive url id start) in
      let r'' = and_then r' (first_token url id at [] life.prefilling refl) in
      let m'' = on_request_response fl (on_new_request fl m url id start) url id at in
      let told = stream_chunks-told url id rest m'' chunk in
      let returned = on_request_complete-returns fl size url id t now [] life.decoding r'' refl in
      (
        rw told (and_then r'' (complete url id t now [] life.decoding refl)),
        rw told (rw returned refl),
      )

  -- If the body is no JSON or the connection fails, the call raises and the request stays counted as
  -- one that waits for its first token.
  pub process_request_unfinished :
      (m : Monitor fl) (url id : String) (x : Exchange)
      → (x.is_json && x.connected) ≡ false
      → ((process_request m url id x).1 ≡ none)
        × (get_or url 0 (process_request m url id x).0.in_prefill_requests
            ≡ get_or url 0 m.in_prefill_requests + 1)
        × ((process_request m url id x).0.finished_requests ≡ m.finished_requests)
  unfolding process_request on_new_request
  process_request_unfinished m url id x failed = elim (Bool-cases x.is_json) [
    | inl json ↦ elim (Bool-cases x.connected) [
      | inl connected ↦ ground (arith, failed, json, connected)
      | inr broken ↦
          rw (json, broken)
            (
              refl,
              ground (
                arith,
                get_or-increment url url m.in_prefill_requests,
                string_eq.same_iff url url,
              ),
              refl,
            )
    ]
    | inr garbled ↦ rw garbled (
      refl,
      ground (arith, get_or-increment url url m.in_prefill_requests, string_eq.same_iff url url),
      refl,
    )
  ]
