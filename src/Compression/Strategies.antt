-- ===== src/Compression/Strategies.antt =====
-- The five strategies, as `context_agent/strategies/registry.py` registers them.
pub mod Calls
pub mod Qa
pub mod Task
pub mod LongSession
pub mod Realtime
pub mod Compaction
use context_agent.Prelude.{ℕ}
use context_agent.Prelude.Floats.{Floats}
use context_agent.Compression.Registry.{Attempt, Builtins}
use context_agent.Compression.Strategies.Calls.{Services}
use context_agent.Compression.Strategies.Qa.{qa_compress}
use context_agent.Compression.Strategies.Task.{task_compress}
use context_agent.Compression.Strategies.LongSession.{long_session_compress}
use context_agent.Compression.Strategies.Realtime.{realtime_compress}
use context_agent.Compression.Strategies.Compaction.{compaction_compress}

module _ {F : Type 0} (o : Floats F) (b : Services) (created_at : ℕ) where
  -- The five, as the registry has them: none raises, since each catches what its services raise.
  unfoldable pub builtins : Builtins F
  unfolding qa_compress task_compress long_session_compress realtime_compress compaction_compress
  builtins = record {
    qa = λ llm snapshot. Attempt.output (qa_compress o b created_at llm snapshot);
    task = λ llm snapshot. Attempt.output (task_compress o b created_at llm snapshot);
    long_session =
        λ llm snapshot. Attempt.output (long_session_compress o b created_at llm snapshot);
    realtime = λ llm snapshot. Attempt.output (realtime_compress o b created_at llm snapshot);
    compaction = λ llm snapshot. Attempt.output (compaction_compress o b created_at llm snapshot);
  }
