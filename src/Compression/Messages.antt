-- ===== src/Compression/Messages.antt =====
-- The messages that the strategies work on: `context_agent/strategies/base.py`. What Python's `str()`
-- gives for the objects that are no texts is a parameter.
use context_agent.Prelude.{
  ℕ, ◌+◌, ◌/◌, String, Option, none, some, Bool, List, [], ◌∷◌, map, if◌then◌else◌, ltb, join,
  text_length, text_append, text_drop, starts_with, strip, ◌==◌,
}
use context_agent.Prelude.Dict.{Dict, get}
use context_agent.Prelude.Floats.{Floats}
use context_agent.Models.Values.{Value, Metadata, str_of}
use context_agent.Models.Context.{ContextItem, ContextSnapshot, ContextOutput, OutputType}

-- A message that has no `metadata` key has `none`.
pub record Message : Type 0 where
  pub role : String
  pub content : String
  pub metadata : Option Metadata

-- What a service gives where messages are expected. A falsy object that is no list, such as `None`,
-- is `nothing`.
pub data Field : Type 0 where
  scalar : Value → Field
  mapping : Metadata → Field

pub data Entry : Type 0 where
  not_dict : Entry
  dict : Dict Field → Entry

pub data Payload : Type 0 where
  nothing not_list : Payload
  list : List Entry → Payload

module _ (show : List String → String) where
  -- `item.metadata.get("role", item.source_type)`, by its text
  role_of : {F : Type 0} → ContextItem F → String
  role_of item = elim (get item.metadata "role") [
    | none ↦ item.source_type
    | some v ↦ str_of show v
  ]

  or_user : String → String
  or_user s = if s == "" then "user" else s

  -- One round of the loop.
  unfoldable pub to_message : {F : Type 0} → ContextItem F → Message
  unfolding role_of or_user
  to_message item =
      let role = or_user (strip (role_of item)) in
      let prefix = text_append "[" (text_append role "] ") in
      record {
        role = role;
        content =
            if starts_with item.content prefix
            then text_drop (text_length prefix) item.content
            else item.content;
        metadata = some item.metadata;
      }

  unfoldable pub snapshot_to_messages : {F : Type 0} → ContextSnapshot F → List Message
  snapshot_to_messages snapshot = map to_message snapshot.items

-- `sum(len(m["content"]) for m in messages)`
abbrev pub chars : List Message → ℕ
chars [] = 0
chars (m ∷ ms) = text_length m.content + chars ms

unfoldable pub estimate_message_tokens : List Message → ℕ
estimate_message_tokens messages = chars messages / 4

-- The text of one message.
render_one : String → String → String
render_one role content =
    if role == "" then content else text_append "[" (text_append role (text_append "] " content))

rendered : List Message → List String
unfolding render_one
rendered [] = []
rendered (m ∷ ms) =
    let rest = rendered ms in
    if strip m.content == "" then rest else render_one (strip m.role) (strip m.content) ∷ rest

unfoldable pub render_messages : List Message → String
unfolding rendered
render_messages messages = join "\n\n" (rendered messages)

module _ (show : List String → String) (show_mapping : Metadata → String) where
  -- `str(message.get(key, ""))`
  field_text : Dict Field → String → String
  field_text d key = elim (get d key) [
    | none ↦ ""
    | some f ↦ elim f [ scalar v ↦ str_of show v | mapping m ↦ show_mapping m ]
  ]

  metadata_of : Dict Field → Metadata
  metadata_of d = elim (get d "metadata") [
    | none ↦ []
    | some f ↦ elim f [ scalar v ↦ [] | mapping m ↦ m ]
  ]

  -- The loop; `none` where it raises a `CompressionError`.
  unfoldable pub normalize : List Entry → Option (List Message)
  unfolding field_text metadata_of
  normalize [] = some []
  normalize (not_dict ∷ es) = none
  normalize (dict d ∷ es) = elim (normalize es) [
    | none ↦ none
    | some ms ↦ some (
        record {
          role = strip (field_text d "role");
          content = field_text d "content";
          metadata = some (metadata_of d);
        }
        ∷ ms)
  ]

  unfoldable pub validate_messages : Payload → Option (List Message)
  unfolding normalize
  validate_messages nothing = none
  validate_messages not_list = none
  validate_messages (list es) = normalize es

module _ {F : Type 0} (o : Floats F) (created_at : ℕ) where
  -- `created_at` is what the default factory returns.
  unfoldable pub build_output :
      ContextSnapshot F → List Message → OutputType → Bool → Option String → ContextOutput F
  unfolding render_messages
  build_output snapshot messages output_type degraded error =
      let content = render_messages messages in
      record {
        output_type = output_type;
        scope_id = snapshot.scope_id;
        session_id = snapshot.session_id;
        user_id = snapshot.user_id;
        content = content;
        token_count = text_length content / 4;
        snapshot = none;
        compressed_text = none;
        search_items = none;
        latency_ms = o.zero;
        degraded = degraded;
        error = error;
        created_at = created_at;
        metadata = [];
      }

-- `estimate_tokens`, which the five strategies write out alike.
unfoldable pub estimate_tokens : {F : Type 0} → (List String → String) → ContextSnapshot F → ℕ
estimate_tokens show snapshot =
    if ltb 0 snapshot.total_tokens
    then snapshot.total_tokens
    else estimate_message_tokens (snapshot_to_messages show snapshot)
