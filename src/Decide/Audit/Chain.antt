-- ===== src/Decide/Audit/Chain.antt =====
-- The last hash of the log stands for all of it.
use vllm_production_stack_cu.Base.{
  String, ◌≡◌, ◌≢◌, sym, subst, ap, ◌∙◌, Option, some, List, [], ◌∷◌, string_eq, inl, inr, ◌⊎◌,
}
use vllm_production_stack_cu.Base.Json.{Value, Fields, find, assign, find-assign}
use vllm_production_stack_cu.Decide.Audit.{
  Hashing, Line, opened, zero_hash, previous, hash_of, previous_hash, linked, event_of,
  append_audit,
}
use vllm_production_stack_cu.Decide.Audit.Links.{hash_of-obj, event_of-cases, find-linked}

module _ (h : Hashing) where
  open h use {Bytes, encode, digest}

  -- Every entry is an event that was made from some record with the hash of the entry before it.
  abbrev pub IsChain : List (Option Value) → Type 0
  IsChain [] = Unit
  IsChain (v ∷ older) =
      ((base : Fields) × (hash : Value) × (event : Fields) × (previous_hash older ≡ previous hash)
        × (event_of h base hash ≡ some event)
        × (v ≡ some (Value.obj event)))
      × IsChain older

  -- the first hash of all, or the hash of some bytes
  abbrev pub IsHash : Value → Type 0
  IsHash v = (v ≡ zero_hash) ⊎ ((t : Bytes) × (v ≡ digest t))

  -- What is relied on of the digest: bytes with the same digest are the same, none has the digest
  -- that stands for no event, and objects with the same bytes have the same hash under a key.
  pub record IsDigest : Type 0 where
    pub injective : (s t : Bytes) → digest s ≡ digest t → s ≡ t
    pub nonzero : (t : Bytes) → digest t ≢ zero_hash
    pub kept :
        (x y : Fields) (bytes : Bytes) (k : String) (v : Value)
        → encode x ≡ some bytes
        → encode y ≡ some bytes
        → find k x ≡ some v
        → IsHash v
        → find k y ≡ some v

  -- an entry of the record with the bytes that its hash is taken of
  abbrev pub IsEntry : Option Value → Fields → Value → Bytes → Type 0
  IsEntry v base hash bytes =
      (event : Fields) × (v ≡ some (Value.obj event))
      × (event_of h base hash ≡ some event)
      × (encode (linked h base hash) ≡ some bytes)

  -- the same hash before and the same bytes hashed, entry for entry
  abbrev pub SameEvents : List (Option Value) → List (Option Value) → Type 0
  SameEvents [] [] = Unit
  SameEvents (v ∷ older) (w ∷ older') =
      ((base base' : Fields) × (hash : Value) × (bytes : Bytes) × IsEntry v base hash bytes
        × IsEntry w base' hash bytes)
      × SameEvents older older'
  SameEvents _ _ = ⊥

  entry-hash :
      (v : Option Value) (base : Fields) (hash : Value) (event : Fields)
      → event_of h base hash ≡ some event
      → v ≡ some (Value.obj event)
      → (bytes : Bytes) × (encode (linked h base hash) ≡ some bytes)
        × (hash_of v ≡ previous (digest bytes))
  entry-hash v base hash event made e = elim (event_of-cases h base hash) [
    | inl (none_of, x) ↦ cc
    | inr (bytes, some_of, x) ↦
        let same : assign "event_hash" (digest bytes) (linked h base hash) ≡ event = cc in
        (
          bytes,
          some_of,
          ap hash_of e
              ∙ hash_of-obj event (digest bytes) (
                  rw (sym same)
                    (find-assign "event_hash" "event_hash" (digest bytes) (linked h base hash))),
        )
  ]

  previous_IsHash :
      (log : List (Option Value)) (hash : Value)
      → IsChain log
      → previous_hash log ≡ previous hash
      → IsHash hash
  unfolding previous_hash
  previous_IsHash [] hash c e = inl cc
  previous_IsHash (v ∷ older) hash ((base, before, event, p, made, is_it), c) e =
      let (bytes, some_of, hashed) = entry-hash v base before event made is_it in inr (bytes, cc)

  -- With a digest that has no collisions: two logs whose entries form chains and that end with the
  -- same hash are equally long, and their events have the same content and the same hash of the
  -- event before, entry for entry. So no entry of a log can be changed, dropped or put in under the
  -- last hash.
  pub previous_hash-determines :
      (log log' : List (Option Value))
      → IsDigest
      → IsChain log
      → IsChain log'
      → previous_hash log ≡ previous_hash log'
      → SameEvents log log'
  unfolding previous_hash
  previous_hash-determines [] [] d c c' e = tt
  previous_hash-determines [] (w ∷ older') d c ((base', hash', event', before', made', is'), c') e =
      let (bytes, some_of, q) = entry-hash w base' hash' event' made' is' in
      absurd (d.nonzero bytes cc)
  previous_hash-determines (v ∷ older) [] d ((base, hash, event, before, made, is), c) c' e =
      let (bytes, some_of, q) = entry-hash v base hash event made is in absurd (d.nonzero bytes cc)
  previous_hash-determines (v ∷ older) (w ∷ older') d ((base, hash, event, before, made, is), c)
        ((base', hash', event', before', made', is'), c') e =
      let (bytes, some_of, q) = entry-hash v base hash event made is in
      let (bytes', some_of', q') = entry-hash w base' hash' event' made' is' in
      let same : bytes ≡ bytes' = d.injective bytes bytes' cc in
      let again : encode (linked h base' hash') ≡ some bytes = cc in
      let found =
        d.kept (linked h base hash) (linked h base' hash') bytes "previous_event_hash" hash some_of
          again (find-linked h base hash) (previous_IsHash older hash c before) in
      let found' = find-linked h base' hash' in
      let same_hash : hash ≡ hash' = cc in
      (
        (
          base,
          base',
          hash,
          bytes,
          (event, is, made, some_of),
          subst (λ x. IsEntry w base' x bytes) (sym same_hash) (event', is', made', again),
        ),
        previous_hash-determines older older' d c c' (before ∙ ap previous same_hash ∙ sym before'),
      )

  -- what runs of the client leave of their records, on a file that takes them
  unfoldable pub append_all : List Fields → List Line → List Line
  unfolding append_audit
  append_all [] lines = lines
  append_all (base ∷ bases) lines = append_all bases (append_audit h opened lines base).0
