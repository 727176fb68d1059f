-- ===== src/Compression/Strategies/Task.antt =====
-- `context_agent/strategies/task_strategy.py`.
use context_agent.Prelude.{ℕ, String, Option, none, some, List, [], ◌∷◌, if◌then◌else◌, ◌==◌}
use context_agent.Prelude.Floats.{Floats}
use context_agent.Models.Context.{ContextSnapshot, ContextOutput, compressed}
use context_agent.Compression.Messages.{Message}
use context_agent.Compression.Truncation.{keep_fitting}
use context_agent.Compression.Strategies.Calls.{
  distill, Services, then_read, system_message, read, finished, fallen_back, unless_fits,
}

module _ {F : Type 0} (o : Floats F) (b : Services) (created_at : ℕ) where
  unfoldable pub task_answer : Option ℕ → List Message → ℕ → String → Option (List Message)
  unfolding then_read read
  task_answer none messages token_budget query = none
  task_answer (some adapter) messages token_budget query =
      then_read (b.complete adapter (distill token_budget query messages)) (read b)

  -- `if summary:`
  unfoldable pub task_summary : List Message → String → String → Option (List Message)
  unfolding then_read system_message
  task_summary messages query scope_id = elim b.task_memory_service [
    | none ↦ none
    | some summarize ↦
        then_read (summarize messages query scope_id)
          (λ summary. if summary == "" then none else some (system_message summary ∷ []))
  ]

  unfoldable pub task_fallback : Option ℕ → ContextSnapshot F → List Message → ContextOutput F
  unfolding task_answer finished fallen_back
  task_fallback llm snapshot messages =
      elim (task_answer llm messages snapshot.token_budget snapshot.query) [
        | some kept ↦ finished o b created_at snapshot compressed kept
        | none ↦
            fallen_back o b created_at snapshot "task_fallback_keep_recent"
              (keep_fitting messages snapshot.token_budget)
      ]

  unfoldable pub task_compress : Option ℕ → ContextSnapshot F → ContextOutput F
  unfolding unless_fits task_summary task_fallback finished
  task_compress llm snapshot = unless_fits o b created_at snapshot compressed (λ messages.
      elim (task_summary messages snapshot.query snapshot.scope_id) [
        | some kept ↦ finished o b created_at snapshot compressed kept
        | none ↦ task_fallback llm snapshot messages
      ])
