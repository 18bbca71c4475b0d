-- ===== src/Routing/PrefixAware.antt =====
-- `PrefixAwareRouter` of src/vllm_router/routers/routing_logic.py. `random.choice` and `xxhash` are
-- parameters; a prompt is the list of its code points.
pub mod Affinity
use Prim.Native.Char.{code}
use vllm_production_stack_cu.Base.{
  ℕ, suc, ◌*◌, ◌<◌, String, ◌≡◌, refl, sym, ◌∙◌, Bool, true, false, ◌&&◌, ◌||◌, Option, none, some,
  List, [], ◌∷◌, ◌++◌, arith, length, get_elem?, In, ◌==◌, string_eq, if◌then◌else◌, inl, inr, ◌⊎◌,
  take, eqb,
}
use vllm_production_stack_cu.Base.Dict.{to_set}
use vllm_production_stack_cu.Base.Json.{
  Value, null, bool, num, real, str, arr, obj, Items, nil, item, Fields, end, field, find, find_or,
  truthy,
}
use vllm_production_stack_cu.Discovery.{EndpointInfo, urls}
use vllm_production_stack_cu.HashTrie.{HashTrie, insert, longest_prefix_match}

-- the code points of a text
unfoldable pub codes : String → List ℕ
codes String.[] = []
codes (String.◌∷◌ c s) = code c ∷ codes s

-- sep.join(parts)
unfoldable pub join : ℕ → List (List ℕ) → List ℕ
join sep [] = []
join sep (p ∷ []) = p
join sep (p ∷ q ∷ ps) = p ++ (sep ∷ join sep (q ∷ ps))

-- part.get("type") == "text" and part.get("text", ""); `none` is an exception: a part that is no
-- object, or a text that is no string.
unfoldable pub text_part : Value → Option (List (List ℕ))
text_part (obj part) = elim (find "type" part) [
  | some (str t) ↦
      if t == "text"
      then elim (find_or "text" (str "") part) [ str text ↦ some (codes text ∷ []) | _ ↦ none ]
      else some []
  | _ ↦ some []
]
text_part _ = none

unfoldable pub text_parts : Items → Option (List (List ℕ))
unfolding text_part
text_parts nil = some []
text_parts (item part parts) = elim (text_part part) [
  | none ↦ none
  | some here ↦ elim (text_parts parts) [ none ↦ none | some rest ↦ some (here ++ rest) ]
]

-- What a message adds to `prompt_parts`. A content that is no string, no list and not null is added
-- too, and `join` then fails: `none`.
unfoldable pub message_parts : Value → Option (List (List ℕ))
unfolding text_parts
message_parts (obj message) = elim (find_or "content" (str "") message) [
  | arr parts ↦ elim (text_parts parts) [ none ↦ none | some texts ↦ some (join b' ' texts ∷ []) ]
  | null ↦ some []
  | str text ↦ some (codes text ∷ [])
  | _ ↦ none
]
message_parts _ = none

unfoldable pub prompt_parts : Items → Option (List (List ℕ))
unfolding message_parts
prompt_parts nil = some []
prompt_parts (item message messages) = elim (message_parts message) [
  | none ↦ none
  | some here ↦ elim (prompt_parts messages) [ none ↦ none | some rest ↦ some (here ++ rest) ]
]

-- The prompt of a completion, as the trie takes it. An empty list or object has length 0 and passes
-- for an empty text; with any other value `len` or `xxhash` fails.
unfoldable pub plain_prompt : Option Value → Option (List ℕ)
plain_prompt (some (str text)) = some (codes text)
plain_prompt (some (arr nil)) = some []
plain_prompt (some (obj end)) = some []
plain_prompt _ = none

-- `messages` may be any JSON value: what is false counts as no messages, and a loop over anything
-- but a list ends in an exception.
unfoldable pub chat_prompt : Value → Option (List ℕ)
unfolding prompt_parts join
chat_prompt (arr (item message messages)) = elim (prompt_parts (item message messages)) [
  | none ↦ none
  | some parts ↦ some (join 10 parts)
]
chat_prompt messages = if truthy messages then none else some []

unfoldable pub prompt : Fields → Option (List ℕ)
unfolding chat_prompt plain_prompt codes
prompt request_json = elim (find "messages" request_json) [
  | some messages ↦ chat_prompt messages
  | none ↦ plain_prompt (find "prompt" request_json)
]

module _ (xxh64 : List ℕ → ℕ) where
  -- `pick n` is the position below `n` that `random.choice` draws from a list of `n` elements; on
  -- an empty list it raises. The trie comes back with the url, or as it was with `none` for an
  -- exception before the insertion.
  unfoldable pub route_prompt :
      (ℕ → ℕ) → HashTrie → List EndpointInfo → List ℕ → HashTrie × Option String
  route_prompt pick t endpoints prompt =
      elim (longest_prefix_match xxh64 t prompt (to_set (urls endpoints))) [
        | none ↦ (t, none)
        | some (_, matched) ↦ elim (get_elem? matched (pick (length matched))) [
          | none ↦ (t, none)
          | some selected ↦ ((insert xxh64 t prompt selected).0, some selected)
        ]
      ]

  unfoldable pub route_request :
      (ℕ → ℕ) → HashTrie → List EndpointInfo → Fields → HashTrie × Option String
  unfolding prompt
  route_request pick t endpoints request_json = elim (prompt request_json) [
    | none ↦ (t, none)
    | some p ↦ route_prompt pick t endpoints p
  ]
