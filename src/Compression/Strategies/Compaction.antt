-- ===== src/Compression/Strategies/Compaction.antt =====
-- `context_agent/strategies/compaction_strategy.py`.
use context_agent.Prelude.{
  ℕ, String, Option, none, some, List, [], ◌∷◌, ◌++◌, if◌then◌else◌, map, join, text_append, ◌==◌,
}
use context_agent.Prelude.Floats.{Floats}
use context_agent.Models.Context.{ContextSnapshot, ContextOutput, structured}
use context_agent.Compression.Messages.{Message}
use context_agent.Compression.Truncation.{keep_fitting}
use context_agent.Compression.Strategies.Calls.{
  compact, Report, Services, is_truthy, then_read, or_else, system_message, validated, finished,
  unless_fits,
}

module _ {F : Type 0} (o : Floats F) (b : Services) (created_at : ℕ) where
  -- `"## Title\n" + "\n".join(f"- {d}" for d in l)`, left out where the list is empty
  bullets : String → List String → List String
  bullets title [] = []
  bullets title (d ∷ ds) =
      text_append title (join "\n" (map (λ (s : String). text_append "- " s) (d ∷ ds))) ∷ []

  section_of : String → String → List String
  section_of title s = if s == "" then [] else text_append title s ∷ []

  parts : Report → List String → List String → List String → List String
  unfolding bullets section_of
  parts r decisions constraints questions =
      text_append "## Task Summary\n" r.summary
      ∷ (bullets "## Key Decisions\n" decisions
          ++ (bullets "## Constraints\n" constraints
              ++ (bullets "## Open Questions\n" questions
                  ++ section_of "## Current Status\n" r.current_status)))

  structured_message : Report → Option (List Message)
  unfolding parts system_message then_read
  structured_message r = then_read r.key_decisions (λ decisions.
      then_read r.constraints (λ constraints. then_read r.open_questions (λ questions.
        some (system_message (join "\n\n" (parts r decisions constraints questions)) ∷ []))))

  -- The body of the `try` of `_llm_compact`, after the call.
  read_report : Report → Option (List Message)
  unfolding structured_message validated
  read_report r =
      if is_truthy r.compressed_messages
      then validated b r.compressed_messages
      else structured_message r

  llm_compact : ℕ → List Message → ℕ → String → List Message
  unfolding then_read or_else read_report
  llm_compact adapter messages token_budget query =
      or_else
        (then_read
          (then_read (b.complete adapter (compact token_budget query messages)) b.loads_report)
          read_report)
        (keep_fitting messages token_budget)

  unfoldable pub compacted : Option ℕ → ContextSnapshot F → List Message → List Message
  unfolding llm_compact
  compacted none snapshot messages = keep_fitting messages snapshot.token_budget
  compacted (some adapter) snapshot messages =
      llm_compact adapter messages snapshot.token_budget snapshot.query

  unfoldable pub compaction_compress : Option ℕ → ContextSnapshot F → ContextOutput F
  unfolding unless_fits compacted finished
  compaction_compress llm snapshot =
      unless_fits o b created_at snapshot structured
        (λ messages. finished o b created_at snapshot structured (compacted llm snapshot messages))
