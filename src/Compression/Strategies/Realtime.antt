-- ===== src/Compression/Strategies/Realtime.antt =====
-- `context_agent/strategies/realtime_strategy.py`.
use context_agent.Prelude.{ℕ, Option, none, some, List}
use context_agent.Prelude.Floats.{Floats}
use context_agent.Models.Context.{ContextSnapshot, ContextOutput, compressed}
use context_agent.Compression.Messages.{Message}
use context_agent.Compression.Truncation.{fast_truncate}
use context_agent.Compression.Strategies.Calls.{
  Services, then_read, read_truthy, finished, fallen_back, unless_fits,
}

module _ {F : Type 0} (o : Floats F) (b : Services) (created_at : ℕ) where
  unfoldable pub round_compressed : List Message → ℕ → Option (List Message)
  unfolding then_read read_truthy
  round_compressed messages token_budget = elim b.current_round_compressor [
    | none ↦ none
    | some compress ↦ then_read (compress messages token_budget) (read_truthy b)
  ]

  -- The strategy has no adapter, so it does not look at the one that the registry could hold.
  unfoldable pub realtime_compress : Option ℕ → ContextSnapshot F → ContextOutput F
  unfolding unless_fits round_compressed finished fallen_back
  realtime_compress llm snapshot = unless_fits o b created_at snapshot compressed (λ messages.
      elim (round_compressed messages snapshot.token_budget) [
        | some kept ↦ finished o b created_at snapshot compressed kept
        | none ↦
            fallen_back o b created_at snapshot "realtime_fallback_truncate"
              (fast_truncate b.keep_last_n messages snapshot.token_budget)
      ])
