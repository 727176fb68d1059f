-- ===== src/Compression/Strategies/LongSession.antt =====
-- `context_agent/strategies/long_session_strategy.py`.
use context_agent.Prelude.{
  ℕ, String, Option, none, some, List, ◌∷◌, ◌++◌, if◌then◌else◌, leb, keep, not, take, drop,
  text_append,
}
use context_agent.Prelude.Floats.{Floats}
use context_agent.Models.Context.{ContextSnapshot, ContextOutput, compressed}
use context_agent.Compression.Messages.{Message, estimate_message_tokens}
use context_agent.Compression.Truncation.{is_system, keep_fitting}
use context_agent.Compression.Strategies.Calls.{
  summarize_oldest, compress_again, Services, then_read, or_else, system_message, read, read_truthy,
  finished, fallen_back, marked, unless_fits,
}

module _ {F : Type 0} (o : Floats F) (b : Services) (created_at : ℕ) where
  -- The second half of `_rolling_summary`.
  rolling_candidate : ℕ → ℕ → List Message → Option (List Message)
  unfolding then_read read
  rolling_candidate adapter token_budget candidate =
      if leb (estimate_message_tokens candidate) token_budget
      then some candidate
      else then_read (b.complete adapter (compress_again token_budget candidate)) (read b)

  rolling_summary : ℕ → List Message → ℕ → List Message
  unfolding then_read or_else rolling_candidate system_message is_system
  rolling_summary adapter messages token_budget =
      let system = keep is_system messages in
      let non_system = keep (λ m. not (is_system m)) messages in
      or_else
        (then_read (b.complete adapter (summarize_oldest (take b.summary_window non_system)))
          (λ summary. rolling_candidate adapter token_budget (
            system
            ++ system_message (text_append "[Conversation summary]\n" summary)
              ∷ drop b.summary_window non_system)))
        (keep_fitting messages token_budget)

  unfoldable pub offloaded : List Message → ℕ → String → Option (List Message)
  unfolding then_read read_truthy
  offloaded messages token_budget scope_id = elim b.message_summary_offloader [
    | none ↦ none
    | some offload ↦ then_read (offload messages token_budget scope_id) (read_truthy b)
  ]

  unfoldable pub long_session_fallback :
      Option ℕ → ContextSnapshot F → List Message → ContextOutput F
  unfolding rolling_summary marked fallen_back
  long_session_fallback none snapshot messages =
      fallen_back o b created_at snapshot "long_session_fallback_simple_window"
        (keep_fitting messages snapshot.token_budget)
  long_session_fallback (some adapter) snapshot messages =
      marked o b created_at snapshot "long_session_fallback_simple_window"
        (rolling_summary adapter messages snapshot.token_budget)
        (keep_fitting messages snapshot.token_budget)

  unfoldable pub long_session_compress : Option ℕ → ContextSnapshot F → ContextOutput F
  unfolding unless_fits offloaded long_session_fallback finished
  long_session_compress llm snapshot = unless_fits o b created_at snapshot compressed (λ messages.
      elim (offloaded messages snapshot.token_budget snapshot.scope_id) [
        | some kept ↦ finished o b created_at snapshot compressed kept
        | none ↦ long_session_fallback llm snapshot messages
      ])
