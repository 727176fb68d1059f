-- ===== src/Examples/Compressing.antt =====
-- The strategies and their truncations.
use context_agent.Prelude.{ℕ, ◌*◌, ◌≤◌, ◌≡◌, ◌≢◌, ◌↔◌, none, some, true, false, List, [], ◌∷◌, ◌++◌}
use context_agent.Models.Context.{ContextOutput, raw}
use context_agent.Compression.Registry.{Registry, ok}
use context_agent.Compression.Messages.{Message, chars, nothing}
use context_agent.Compression.Truncation.{truncate, fast_truncate, keep_fitting, last_n}
use context_agent.Compression.Loops.{longest_end, fitting}
use context_agent.Compression.Truncated.{system_of, others_of, truncations}
use context_agent.Compression.Strategies.Calls.{Services}
use context_agent.Compression.Strategies.{builtins}
use context_agent.Compression.Scheduler.{StrategySelectionContext, task_type_map, utilisation}
use context_agent.Compression.Router.{route_and_compress}
use context_agent.Compression.Composed.{route_and_compress-raw_iff}
use context_agent.Examples.Data.{cents, snapshot}

abbrev messages : List Message
messages =
    record { role = "system"; content = "be brief"; metadata = none }
    ∷ record { role = "user"; content = "a long question"; metadata = none }
    ∷ record { role = "user"; content = "short"; metadata = none }
    ∷ []

truncations_example :
    (truncate messages 4
      ≡ system_of messages ++ longest_end (4 * 4) (chars (system_of messages)) (others_of messages))
    × (fast_truncate 1 messages 4
        ≡ system_of messages
          ++ longest_end (4 * 4) (chars (system_of messages)) (last_n 1 (others_of messages)))
    × (keep_fitting messages 4
        ≡ system_of messages ++ fitting (4 * 4) (chars (system_of messages)) (others_of messages))
truncations_example = truncations messages 4 1

-- A model that does not answer, and no other service.
abbrev services : Services
services = record {
  complete = λ adapter ask. none;
  loads = λ s. some nothing;
  loads_report = λ s. none;
  dialogue_compressor = none;
  task_memory_service = none;
  message_summary_offloader = none;
  current_round_compressor = none;
  summary_window = 20;
  keep_last_n = 10;
  show = λ l. "";
  show_mapping = λ m. "";
  same = λ l k. true;
}

abbrev context : StrategySelectionContext
context = record {
  scope_id = "team";
  task_type = "poem";
  agent_role = "";
  token_used = 9;
  token_budget = 100;
  turn_count = 3;
  has_multimodal = false;
  metadata = [];
}

route_and_compress-raw_iff_example :
    (r : Registry ℕ) × (out : ContextOutput ℕ) × (route_and_compress cents
        (λ s. s)
        (builtins cents services 8)
        80
        []
        snapshot
        context
        8
      ≡ ok (r, out))
    × ((out.output_type ≡ raw) ↔ (
        (task_type_map context.task_type ≡ [])
        × (context.task_type ≢ "")
        × (context.turn_count ≤ 20)
        × (cents.lt 80 (utilisation cents context) ≡ false)
        × (cents.lt (cents.hundredths 95) (utilisation cents context) ≡ false)))
route_and_compress-raw_iff_example =
    route_and_compress-raw_iff cents services 8 (λ s. s) 80 snapshot context
