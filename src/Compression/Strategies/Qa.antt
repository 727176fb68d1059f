-- ===== src/Compression/Strategies/Qa.antt =====
-- `context_agent/strategies/qa_strategy.py`.
use context_agent.Prelude.{ℕ, String, Option, none, some, List}
use context_agent.Prelude.Floats.{Floats}
use context_agent.Models.Context.{ContextSnapshot, ContextOutput, compressed}
use context_agent.Compression.Messages.{Message}
use context_agent.Compression.Truncation.{truncate}
use context_agent.Compression.Strategies.Calls.{
  select, Services, then_read, or_else, validated, read, finished, fallen_back, marked, unless_fits,
}

module _ {F : Type 0} (o : Floats F) (b : Services) (created_at : ℕ) where
  qa_llm_compress : ℕ → List Message → ℕ → String → List Message
  unfolding then_read read or_else
  qa_llm_compress adapter messages token_budget query =
      or_else (then_read (b.complete adapter (select token_budget query messages)) (read b))
        (truncate messages token_budget)

  unfoldable pub qa_fallback : Option ℕ → ContextSnapshot F → List Message → ContextOutput F
  unfolding qa_llm_compress marked fallen_back
  qa_fallback none snapshot messages =
      fallen_back o b created_at snapshot "qa_fallback_truncate"
        (truncate messages snapshot.token_budget)
  qa_fallback (some adapter) snapshot messages =
      marked o b created_at snapshot "qa_fallback_truncate"
        (qa_llm_compress adapter messages snapshot.token_budget snapshot.query)
        (truncate messages snapshot.token_budget)

  unfoldable pub compressor_result : List Message → ℕ → String → Option (List Message)
  unfolding then_read validated
  compressor_result messages token_budget query = elim b.dialogue_compressor [
    | none ↦ none
    | some compress ↦ then_read (compress messages token_budget query) (validated b)
  ]

  unfoldable pub qa_compress : Option ℕ → ContextSnapshot F → ContextOutput F
  unfolding unless_fits qa_fallback compressor_result finished
  qa_compress llm snapshot = unless_fits o b created_at snapshot compressed (λ messages.
      elim (compressor_result messages snapshot.token_budget snapshot.query) [
        | some kept ↦ finished o b created_at snapshot compressed kept
        | none ↦ qa_fallback llm snapshot messages
      ])
