-- ===== src/Orchestrator/Ingest.antt =====
-- `ingest_messages`: the messages go to the working memory, and what is worth keeping is enqueued for
-- the long-term memory.
use context_agent.Prelude.{
  ℕ, ◌+◌, String, ◌==◌, ◌&&◌, ◌⊎◌, inl, inr, Option, none, some, Bool, true, false, List, [], ◌∷◌,
  ◌++◌, is_nil, if◌then◌else◌, text_append, strip,
}
use context_agent.Prelude.Dict.{get, put}
use context_agent.Prelude.Floats.{Floats}
use context_agent.Models.Values.{Value, text, other, Metadata, str_of}
use context_agent.Models.Context.{ContextItem, detail}
use context_agent.Models.Errors.{AgentError}
use context_agent.WorkingMemory.Manager.{Redis, Json, WorkingMemoryManager, Called}
use context_agent.WorkingMemory.Items.{ItemJson, write}
use context_agent.Processor.Tasks.{MemoryTask, TaskMessage, add}
use context_agent.Processor.Queue.{AsyncMemoryProcessor, enqueue}
use context_agent.Orchestrator.Signals.{
  MemorySignal, classify_message, default_category_for_type, parse_memory_type, memory_type_value,
  category_value,
}

-- The texts of `content` and `role`, which are empty where the key is missing, and `metadata`.
pub record IncomingMessage : Type 0 where
  pub content : String
  pub role : String
  pub metadata : Metadata

module _ (lower : String → String) (show : List String → String) where
  -- The message as it is looked at: stripped, and a user's where it names no role.
  unfoldable pub content_of : IncomingMessage → String
  content_of message = strip message.content

  or_user : String → String
  or_user s = if s == "" then "user" else s

  unfoldable pub role_of : IncomingMessage → String
  unfolding or_user
  role_of message = or_user (strip message.role)

  requested : Bool → MemorySignal → String → MemorySignal
  requested persist_long_term signal s = if s == "" then signal else elim (parse_memory_type s) [
    | none ↦ signal
    | some t ↦ record {
      should_persist = persist_long_term;
      memory_type = t;
      category = default_category_for_type t;
      reason = "explicit_request";
    }
  ]

  -- A type that the message asks for takes the place of the classification.
  unfoldable pub signal_of : Bool → IncomingMessage → MemorySignal
  unfolding requested role_of content_of
  signal_of persist_long_term message =
      let signal = classify_message lower (role_of message) (content_of message) in
      elim (get message.metadata "requested_memory_type") [
        | none ↦ signal
        | some v ↦ requested persist_long_term signal (str_of show v)
      ]

  bool_value : Bool → Value
  bool_value true = other "True"
  bool_value false = other "False"

  -- What the long-term memory is given of a message.
  unfoldable pub ltm_message : String → String → Bool → IncomingMessage → TaskMessage
  unfolding signal_of role_of content_of
  ltm_message scope_id session_id persist_long_term message =
      let signal = signal_of persist_long_term message in
      record {
        role = role_of message;
        content = content_of message;
        metadata =
            put
              (put
                (put
                  (put (put message.metadata "scope_id" (text scope_id)) "session_id"
                    (text session_id))
                  "memory_type" (text (memory_type_value signal.memory_type)))
                "category" (text (category_value signal.category)))
              "memory_reason" (text signal.reason);
      }

  unfoldable pub is_blank : IncomingMessage → Bool
  unfolding content_of
  is_blank message = content_of message == ""

  unfoldable pub is_persisted : Bool → IncomingMessage → Bool
  unfolding signal_of
  is_persisted persist_long_term message =
      persist_long_term && (signal_of persist_long_term message).should_persist

  module _ {R F : Type 0} (o : Floats F) (b : Redis R) (j : Json) (i : ItemJson F)
      (scope_id session_id : String) (persist_long_term : Bool) where
    -- The item, with an id and a time from the default factories.
    unfoldable pub to_item : String → ℕ → IncomingMessage → ContextItem F
    unfolding signal_of role_of content_of bool_value
    to_item item_id now message =
        let signal = signal_of persist_long_term message in
        record {
          item_id = item_id;
          snapshot_id = "";
          source_type = role_of message;
          tier = "warm";
          modality = "text";
          language = "zh";
          memory_type = some signal.memory_type;
          category = some signal.category;
          level = detail;
          score = o.one;
          active_count = 0;
          content =
              text_append "["
                (text_append (role_of message) (text_append "] " (content_of message)));
          raw_content_ref = none;
          metadata =
              put
                (put (put message.metadata "role" (text (role_of message))) "memory_reason"
                  (text signal.reason))
                "persist_long_term" (bool_value persist_long_term);
          timestamp = now;
          updated_at = now;
        }

    -- The loop, from so many items stored and such messages for the long-term memory on.
    unfoldable pub ingest :
        (ℕ → String)
        → ℕ
        → WorkingMemoryManager R
        → ℕ
        → List TaskMessage
        → List IncomingMessage
        → Called R (ℕ × List TaskMessage)
    unfolding to_item ltm_message is_blank is_persisted
    ingest item_ids now w stored ltm_messages [] = (w, inr (stored, ltm_messages))
    ingest item_ids now w stored ltm_messages (message ∷ messages) = elim (is_blank message) [
      | true ↦ ingest item_ids now w stored ltm_messages messages
      | false ↦
          let (w', r) =
            write o b j i w scope_id session_id (to_item (item_ids stored) now message) in
          elim r [
            | inl e ↦ (w', inl e)
            | inr _ ↦
                ingest item_ids now w' (stored + 1)
                  (if is_persisted persist_long_term message
                    then ltm_messages
                      ++ ltm_message scope_id session_id persist_long_term message ∷ []
                    else ltm_messages)
                  messages
          ]
    ]

    -- `user_id or scope_id`; `created_at` and `callback_event` have their defaults.
    unfoldable pub task_of : String → ℕ → List TaskMessage → MemoryTask
    task_of user_id now ltm_messages = record {
      scope_id = scope_id;
      task_type = add;
      session_id = session_id;
      user_id = if user_id == "" then scope_id else user_id;
      messages = ltm_messages;
      memory_id = "";
      updates = [];
      created_at = now;
      callback_event = "MEMORY_UPDATED";
    }

    module _ {L H : Type 0} where
      unfoldable pub enqueued :
          AsyncMemoryProcessor L H
          → ℕ
          → AgentError ⊎ AsyncMemoryProcessor L H
          → Option (AsyncMemoryProcessor L H) × (AgentError ⊎ ℕ)
      enqueued p stored (inl e) = (some p, inl e)
      enqueued p stored (inr p') = (some p', inr stored)

      -- What follows the loop: the processor afterwards, where there is one, and the number stored.
      unfoldable pub hand_over :
          Option (AsyncMemoryProcessor L H)
          → String
          → ℕ
          → ℕ
          → List TaskMessage
          → Option (AsyncMemoryProcessor L H) × (AgentError ⊎ ℕ)
      unfolding enqueued task_of
      hand_over none user_id now stored ltm_messages = (none, inr stored)
      hand_over (some p) user_id now stored ltm_messages =
          if is_nil ltm_messages
          then (some p, inr stored)
          else enqueued p stored (enqueue p (task_of user_id now ltm_messages))

      unfoldable pub after_loop :
          Option (AsyncMemoryProcessor L H)
          → String
          → ℕ
          → AgentError ⊎ (ℕ × List TaskMessage)
          → Option (AsyncMemoryProcessor L H) × (AgentError ⊎ ℕ)
      unfolding hand_over
      after_loop p user_id now (inl e) = (p, inl e)
      after_loop p user_id now (inr (stored, ltm_messages)) =
          hand_over p user_id now stored ltm_messages

      unfoldable pub ingest_messages :
          (ℕ → String)
          → ℕ
          → String
          → WorkingMemoryManager R
          → Option (AsyncMemoryProcessor L H)
          → List IncomingMessage
          → WorkingMemoryManager R × Option (AsyncMemoryProcessor L H) × (AgentError ⊎ ℕ)
      unfolding ingest after_loop
      ingest_messages item_ids now user_id w p messages =
          let (w', r) = ingest item_ids now w 0 [] messages in
          let (p', result) = after_loop p user_id now r in (w', p', result)
