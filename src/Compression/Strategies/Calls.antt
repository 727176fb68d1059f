-- ===== src/Compression/Strategies/Calls.antt =====
-- What the strategies share: the programs they call, and how they read the answers.
use context_agent.Prelude.{
  ℕ, String, Option, none, some, Bool, true, false, List, [], ◌∷◌, if◌then◌else◌, leb, is_nil,
}
use context_agent.Prelude.Floats.{Floats}
use context_agent.Models.Values.{Metadata}
use context_agent.Models.Context.{ContextSnapshot, ContextOutput, OutputType, compressed}
use context_agent.Compression.Messages.{
  Message, Payload, nothing, not_list, list, snapshot_to_messages, validate_messages, build_output,
  estimate_tokens,
}

-- What a model is asked for, without the wording of the prompt.
pub data Ask : Type 0 where
  select : ℕ → String → List Message → Ask
  distill : ℕ → String → List Message → Ask
  compact : ℕ → String → List Message → Ask
  summarize_oldest : List Message → Ask
  compress_again : ℕ → List Message → Ask

-- The object that a compaction is answered with: a list that cannot be gone through is `none`.
pub record Report : Type 0 where
  pub compressed_messages : Payload
  pub summary : String
  pub key_decisions : Option (List String)
  pub constraints : Option (List String)
  pub open_questions : Option (List String)
  pub current_status : String

-- The other programs and Python's own: a call that raises gives `none`.
pub record Services : Type 0 where
  -- the model that an adapter stands for
  pub complete : ℕ → Ask → Option String
  -- `json.loads`, and what is found in its result where that is an object
  pub loads : String → Option Payload
  pub loads_report : String → Option Report
  -- `None`, or a compressor, a service for task memory, an offloader, a compressor of the round
  pub dialogue_compressor : Option (List Message → ℕ → String → Option Payload)
  pub task_memory_service : Option (List Message → String → String → Option String)
  pub message_summary_offloader : Option (List Message → ℕ → String → Option Payload)
  pub current_round_compressor : Option (List Message → ℕ → Option Payload)
  pub summary_window : ℕ
  pub keep_last_n : ℕ
  -- `str()` of a list and of a dict, and `==` on lists of messages
  pub show : List String → String
  pub show_mapping : Metadata → String
  pub same : List Message → List Message → Bool

-- `if result:`
unfoldable pub is_truthy : Payload → Bool
is_truthy nothing = false
is_truthy not_list = true
is_truthy (list []) = false
is_truthy (list (e ∷ es)) = true

-- A call that may raise, and then the reading of what it gives.
unfoldable pub then_read : {A B : Type 0} → Option A → (A → Option B) → Option B
then_read none f = none
then_read (some a) f = f a

unfoldable pub or_else : {A : Type 0} → Option A → A → A
or_else none a = a
or_else (some x) a = x

unfoldable pub system_message : String → Message
system_message s = record { role = "system"; content = s; metadata = none }

module _ (b : Services) where
  unfoldable pub validated : Payload → Option (List Message)
  validated p = validate_messages b.show b.show_mapping p

  unfoldable pub read : String → Option (List Message)
  unfolding then_read validated
  read answer = then_read (b.loads answer) validated

  -- `if result:`, and the checks; `none` where the strategy goes on to what follows.
  unfoldable pub read_truthy : Payload → Option (List Message)
  unfolding validated
  read_truthy p = if is_truthy p then validated p else none

module _ {F : Type 0} (o : Floats F) (b : Services) (created_at : ℕ) where
  unfoldable pub finished : ContextSnapshot F → OutputType → List Message → ContextOutput F
  finished snapshot t messages = build_output o created_at snapshot messages t false none

  unfoldable pub fallen_back : ContextSnapshot F → String → List Message → ContextOutput F
  fallen_back snapshot error messages =
      build_output o created_at snapshot messages compressed true (some error)

  -- The output is marked as degraded where it is the same as the truncation.
  unfoldable pub marked : ContextSnapshot F → String → List Message → List Message → ContextOutput F
  unfolding fallen_back finished
  marked snapshot error messages truncated =
      if b.same messages truncated
      then fallen_back snapshot error messages
      else finished snapshot compressed messages

  -- The first lines of each `compress`: a snapshot that has no messages, or fits, is only rendered.
  unfoldable pub unless_fits :
      ContextSnapshot F → OutputType → (List Message → ContextOutput F) → ContextOutput F
  unfolding finished
  unless_fits snapshot t f =
      let messages = snapshot_to_messages b.show snapshot in
      if is_nil messages
      then finished snapshot t []
      else if leb (estimate_tokens b.show snapshot) snapshot.token_budget
      then finished snapshot t messages
      else f messages
