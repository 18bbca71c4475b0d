-- ===== src/Cache/Chat/Messages.antt =====
-- What src/vllm_router/experimental/semantic_cache_integration.py reads of messages: whether their log
-- line raises, and the messages among the choices of an answer.
use vllm_production_stack_cu.Base.{
  Bool, true, false, ◌||◌, not, Option, none, some, ◌==◌, string_eq, if◌then◌else◌,
}
use vllm_production_stack_cu.Base.Text.{contains}
use vllm_production_stack_cu.Base.Json.{
  Value, Items, Fields, nil, item, end, field, find, find_or, truthy,
}

-- `content[:50]` is a TypeError unless the content is a text or a list.
abbrev sliceable : Value → Bool
sliceable (Value.str s) = true
sliceable (Value.arr is) = true
sliceable _ = false

-- Messages that are there are logged by the content of the first, which raises unless the messages
-- are a list that starts with an object whose content can be sliced.
unfoldable pub loggable : Value → Bool
loggable (Value.arr nil) = true
loggable (Value.arr (item (Value.obj message) rest)) =
    sliceable (find_or "content" (Value.str "") message)
loggable v = not (truthy v)

-- "message" in choice, for a list
unfoldable pub has_message : Items → Bool
has_message nil = false
has_message (item (Value.str s) rest) = (s == "message") || has_message rest
has_message (item v rest) = has_message rest

-- and for the keys of an object that are taken for choices
unfoldable pub key_with_message : Fields → Bool
key_with_message end = false
key_with_message (field k v fs) = contains k "message" || key_with_message fs

-- the messages of the choices, `none` for an exception
unfoldable pub messages_in : Items → Option Items
unfolding has_message
messages_in nil = some nil
messages_in (item (Value.obj choice) rest) =
    let later = messages_in rest in
    elim (find "message" choice) [
      | none ↦ later
      | some m ↦ elim later [ none ↦ none | some ms ↦ some (item m ms) ]
    ]
messages_in (item (Value.str s) rest) =
    let later = messages_in rest in if contains s "message" then none else later
messages_in (item (Value.arr is) rest) =
    let later = messages_in rest in if has_message is then none else later
messages_in (item v rest) = none

unfoldable pub messages_of_choices : Option Value → Option Items
unfolding messages_in key_with_message
messages_of_choices none = some nil
messages_of_choices (some (Value.arr choices)) = messages_in choices
messages_of_choices (some (Value.str s)) = some nil
messages_of_choices (some (Value.obj fs)) = if key_with_message fs then none else some nil
messages_of_choices (some _) = none
