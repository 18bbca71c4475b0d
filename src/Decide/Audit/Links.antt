-- ===== src/Decide/Audit/Links.antt =====
-- The events of the log are linked by their hashes, each to the event before it.
use vllm_production_stack_cu.Base.{
  Option-cases, String, ◌≡◌, refl, sym, subst, ap, ◌∙◌, false, ◌==◌, Option, none, some, List, [],
  ◌∷◌, string_eq, inl, inr, ◌⊎◌,
}
use vllm_production_stack_cu.Base.Json.{Value, Fields, find, assign, find-assign}
use vllm_production_stack_cu.Decide.Audit.{
  Hashing, Line, line, opened, written, crashed, Appended, zero_hash, entries, previous, hash_of,
  previous_hash, linked, event_of, write, encode_and_write, append_to, append_audit,
}

pub hash_of-obj :
    (fs : Fields) (v : Value)
    → find "event_hash" fs ≡ some v
    → hash_of (some (Value.obj fs)) ≡ previous v
unfolding hash_of
hash_of-obj fs v e = rw (e, hash_of) refl

module _ (h : Hashing) where
  open h use {Bytes, encode, digest}

  -- An event with the hash of the event before it, and with the digest of the bytes of the rest of it.
  abbrev pub IsLinked : Value → Fields → Type 0
  IsLinked hash event =
      (rest : Fields) × (bytes : Bytes) × (find "previous_event_hash" rest ≡ some hash)
      × (encode rest ≡ some bytes)
      × (event ≡ assign "event_hash" (digest bytes) rest)

  -- The entries are linked events, each with the hash of the one before, the first with sixty-four
  -- zeros.
  abbrev pub AreLinked : List (Option Value) → Value → Type 0
  AreLinked [] hash = hash ≡ zero_hash
  AreLinked (v ∷ older) hash =
      (event : Fields) × (before : Value) × (v ≡ some (Value.obj event))
      × (find "event_hash" event ≡ some hash)
      × IsLinked before event
      × AreLinked older before

  -- The event has what the record has, but for the two hashes.
  abbrev pub Extends : Fields → Fields → Type 0
  Extends event base =
      (k : String)
      → ("event_hash" == k) ≡ false
      → ("previous_event_hash" == k) ≡ false
      → find k event ≡ find k base

  pub event_of-cases :
      (base : Fields) (hash : Value)
      → ((encode (linked h base hash) ≡ none) × (event_of h base hash ≡ none))
        ⊎ ((bytes : Bytes) × (encode (linked h base hash) ≡ some bytes)
            × (event_of h base hash
                ≡ some (assign "event_hash" (digest bytes) (linked h base hash))))
  unfolding event_of
  event_of-cases base hash = elim (Option-cases (encode (linked h base hash))) [
    | inl e ↦ inl (e, rw (e, event_of) refl)
    | inr (bytes, e) ↦ inr (bytes, e, rw (e, event_of) refl)
  ]

  find-linked_other :
      (base : Fields) (hash : Value) (k : String)
      → ("previous_event_hash" == k) ≡ false
      → find k (linked h base hash) ≡ find k base
  find-linked_other base hash k e = find-assign "previous_event_hash" k hash base ∙ rw e refl

  find-event :
      (base : Fields) (hash : Value) (bytes : Bytes)
      → Extends (assign "event_hash" (digest bytes) (linked h base hash)) base
  find-event base hash bytes k e e' =
      find-assign "event_hash" k (digest bytes) (linked h base hash)
      ∙ rw e (find-linked_other base hash k e')

  pub find-linked :
      (base : Fields) (hash : Value) → find "previous_event_hash" (linked h base hash) ≡ some hash
  find-linked base hash = find-assign "previous_event_hash" "previous_event_hash" hash base

  AreLinked-previous :
      (log : List (Option Value)) (hash : Value)
      → AreLinked log hash
      → previous_hash log ≡ previous hash
  unfolding previous_hash
  AreLinked-previous [] hash e = ap previous (sym e)
  AreLinked-previous (v ∷ older) hash (event, before, made, found, l, c) =
      ap hash_of made ∙ hash_of-obj event hash found

  -- What an append leaves on a log: one more event of the record, which is linked to the log; or, when
  -- some object cannot be encoded, nothing, and another exception.
  abbrev pub IsAppended : List Line → Fields → Value → List Line → Appended → Type 0
  IsAppended lines base hash after result =
      ((event : Fields) × (after ≡ line (some (Value.obj event)) ∷ lines)
        × (result ≡ written event)
        × Extends event base
        × IsLinked hash event)
      ⊎ ((v : Fields) × (encode v ≡ none) × Extends v base × (after ≡ lines) × (result ≡ crashed))

  encode_and_write-IsAppended :
      (lines : List Line) (base : Fields) (hash : Value) (bytes : Bytes)
      → encode (linked h base hash) ≡ some bytes
      → let r =
          encode_and_write h opened lines
            (some (assign "event_hash" (digest bytes) (linked h base hash))) in
        IsAppended lines base hash r.0 r.1
  unfolding encode_and_write write
  encode_and_write-IsAppended lines base hash bytes e =
      let event = assign "event_hash" (digest bytes) (linked h base hash) in
      elim (Option-cases (encode event)) [
        | inl none_of ↦
            rw (none_of, encode_and_write)
              (inr (event, none_of, find-event base hash bytes, refl, refl))
        | inr (bytes', e') ↦
            rw (e', encode_and_write)
              (inl (
                event,
                refl,
                refl,
                find-event base hash bytes,
                (linked h base hash, bytes, find-linked base hash, e, refl),
              ))
      ]

  append_to-IsAppended :
      (lines : List Line) (base : Fields) (hash : Value)
      → let r = append_to h opened lines base (previous hash) in IsAppended lines base hash r.0 r.1
  unfolding append_to encode_and_write
  append_to-IsAppended lines base hash = elim (event_of-cases base hash) [
    | inl (none_of, e) ↦
        rw (e, append_to)
          (inr (linked h base hash, none_of, λ k x y. find-linked_other base hash k y, refl, refl))
    | inr (bytes, some_of, e) ↦
        rw (e, append_to) (encode_and_write-IsAppended lines base hash bytes some_of)
  ]

  append_audit-opened :
      (lines : List Line) (base : Fields) (hash : Value)
      → previous_hash (entries lines) ≡ previous hash
      → append_audit h opened lines base ≡ append_to h opened lines base (previous hash)
  unfolding append_audit
  append_audit-opened lines base hash e = ap (append_to h opened lines base) e

  IsLinked-hash :
      (event : Fields) (hash : Value)
      → IsLinked hash event
      → (v : Value) × (find "event_hash" event ≡ some v)
  IsLinked-hash event hash (rest, bytes, found, e, made) =
      (digest bytes, rw made (find-assign "event_hash" "event_hash" (digest bytes) rest))

  IsAppended-AreLinked :
      (lines after : List Line) (base : Fields) (hash : Value) (result : Appended)
      → AreLinked (entries lines) hash
      → IsAppended lines base hash after result
      → (hash' : Value) × AreLinked (entries after) hash'
  unfolding entries
  IsAppended-AreLinked lines after base hash result c (inl (event, e, w, kept, l)) =
      let (v, found) = IsLinked-hash event hash l in
      (v, subst (λ ls. AreLinked (entries ls) v) (sym e) (event, hash, refl, found, l, c))
  IsAppended-AreLinked lines after base hash result c (inr (v, e, kept, same, w)) =
      (hash, subst (λ ls. AreLinked (entries ls) hash) (sym same) c)

  -- On a log of linked events that ends with a hash, an append to a file that takes it writes one event:
  -- it has what the record has, but for its two hashes, of which one is the hash of the last event and
  -- the other the digest of the rest of the event. Or an object with what the record has cannot be
  -- encoded: then nothing is written, and the exception is not caught. The events of the log are linked
  -- afterwards as well.
  pub append_audit-AreLinked :
      (lines : List Line) (base : Fields) (hash : Value)
      → AreLinked (entries lines) hash
      → let (after, result) = append_audit h opened lines base in
        IsAppended lines base hash after result
        × ((hash' : Value) × AreLinked (entries after) hash')
  append_audit-AreLinked lines base hash c =
      let appended =
        subst (λ r. IsAppended lines base hash r.0 r.1)
          (sym (append_audit-opened lines base hash (AreLinked-previous (entries lines) hash c)))
          (append_to-IsAppended lines base hash) in
      (
        appended,
        IsAppended-AreLinked lines (append_audit h opened lines base).0 base hash
            (append_audit h opened lines base).1 c appended,
      )
