-- ===== src/Decide/Tests.antt =====
-- The client at small inputs. The digest of an object is the object itself, which has no collisions.
use vllm_production_stack_cu.Base.{
  ℕ, zero, suc, ◌≡◌, refl, subst, some, List, [], ◌∷◌, nat_eq, string_eq,
}
use vllm_production_stack_cu.Base.Dict.{mem}
use vllm_production_stack_cu.Base.Floats.{nat_floats}
use vllm_production_stack_cu.Base.Json.{Value, Fields, end, field, find, assign}
use vllm_production_stack_cu.Decide.Retry.{
  Answer, http_error, response, done, request_json, request_loop, is_retryable, conclude, sleeps,
  delay, IsConcluded, request_json-IsConcluded,
}
use vllm_production_stack_cu.Decide.Audit.{
  Hashing, Line, line, opened, zero_hash, entries, hash_of, previous_hash, linked, event_of, write,
  encode_and_write, append_to, append_audit,
}
use vllm_production_stack_cu.Decide.Audit.Links.{AreLinked, IsAppended, append_audit-AreLinked}
use vllm_production_stack_cu.Decide.Audit.Chain.{
  IsChain, IsDigest, SameEvents, append_all, previous_hash-determines,
}

-- a server that is overloaded once
abbrev answers : ℕ → Answer
answers zero = http_error 503
answers (suc n) = response (some (Value.obj end))

request_run : (request_json nat_floats answers 2 3).0 ≡ done end 2
unfolding request_json request_loop is_retryable conclude sleeps delay mem
request_run = refl

request_json-IsConcluded_example :
    IsConcluded nat_floats answers 2 (request_json nat_floats answers 2 3)
request_json-IsConcluded_example = request_json-IsConcluded nat_floats answers 2 3

abbrev plain : Hashing
plain = record { Bytes = Fields; encode = λ fs. some fs; digest = λ fs. Value.obj fs }

plain-injective : (s t : Fields) → Value.obj s ≡ Value.obj t → s ≡ t
plain-injective s t e = cc

same-Fields : (x y b : Fields) → some x ≡ some b → some y ≡ some b → x ≡ y
same-Fields x y b p q = cc

plain-IsDigest : IsDigest plain
plain-IsDigest = record {
  injective = plain-injective;
  nonzero = λ t e. cc;
  kept = λ x y bytes k v a b e known. subst (λ z. find k z ≡ some v) (same-Fields x y bytes a b) e;
}

abbrev first_record : Fields
first_record = field "operation" (Value.str "decide") end

abbrev log : List Line
log = append_all plain (first_record ∷ first_record ∷ []) []

abbrev first_event : Fields
first_event =
    let event = linked plain first_record zero_hash in assign "event_hash" (Value.obj event) event

abbrev last_hash : Value
last_hash = Value.obj (linked plain first_record zero_hash)

-- a log with one event
abbrev short_log : List Line
short_log = line (some (Value.obj first_event)) ∷ []

short_log-AreLinked : AreLinked plain (entries short_log) last_hash
unfolding entries find assign
short_log-AreLinked = (
  first_event,
  zero_hash,
  refl,
  refl,
  (linked plain first_record zero_hash, linked plain first_record zero_hash, refl, refl, refl),
  refl,
)

log-IsChain : IsChain plain (entries log)
unfolding entries append_all append_audit append_to previous_hash hash_of event_of encode_and_write
    write find assign
log-IsChain = (
  (first_record, last_hash, _, refl, refl, refl),
  ((first_record, zero_hash, _, refl, refl, refl), tt),
)

append_audit-AreLinked_example :
    let (after, result) = append_audit plain opened short_log first_record in
    IsAppended plain short_log first_record last_hash after result
    × ((hash' : Value) × AreLinked plain (entries after) hash')
append_audit-AreLinked_example =
    append_audit-AreLinked plain short_log first_record last_hash short_log-AreLinked

previous_hash-determines_example : SameEvents plain (entries log) (entries log)
previous_hash-determines_example =
    previous_hash-determines plain (entries log) (entries log) plain-IsDigest log-IsChain
      log-IsChain refl
