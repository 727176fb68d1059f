-- ===== src/Examples/Choosing.antt =====
-- Aggregation, conditioning, exposure, and the choice of tools.
use context_agent.Prelude.{
  ℕ, ◌≡◌, ◌↔◌, refl, Option, none, some, true, false, List, [], ◌∷◌, length, ◌+◌, In, map,
}
use context_agent.Models.Context.{ContextItem}
use context_agent.Conditioning.{
  apply_task_conditioning, IsConditioned, apply_task_conditioning-IsConditioned,
}
use context_agent.Exposure.{apply, Permitted, apply_exact}
use context_agent.Aggregation.Sources.{gather}
use context_agent.Aggregation.Aggregate.{aggregate}
use context_agent.Aggregation.Selection.{IsAggregated, aggregate-IsAggregated, aggregate_timed_out}
use context_agent.Aggregation.Dedup.{deduplicate, IsDeduplicated, deduplicate-IsDeduplicated}
use context_agent.Aggregation.Budget.{
  apply_token_budget, IsLongestFit, apply_token_budget-IsLongestFit,
}
use context_agent.Tools.Governor.{ToolStats, ToolDefinition, ToolContextGovernor}
use context_agent.Tools.Reliability.{
  Call, IsTally, calls_of, record_all, record_tool_result-IsTally,
}
use context_agent.Prelude.Dict.{get}
use context_agent.Examples.Data.{
  cents, cents-IsOrdered, same_text, tool_item, three_items, snapshot, strict_policy, request,
  aggregator,
}

apply_exact_example :
    ((item : ContextItem ℕ)
      → In item (apply snapshot strict_policy 9).visible_items
        ↔ (In item snapshot.items × Permitted item strict_policy))
    × (length (apply snapshot strict_policy 9).visible_items
          + (apply snapshot strict_policy 9).hidden_item_count
        ≡ 3)
apply_exact_example = apply_exact snapshot strict_policy 9

apply_task_conditioning_example :
    IsConditioned cents same_text "task" "executor" three_items
      (apply_task_conditioning cents same_text three_items "task" "executor")
apply_task_conditioning_example =
    apply_task_conditioning-IsConditioned cents same_text cents-IsOrdered three_items "task"
      "executor" refl

deduplicate_example : IsDeduplicated cents three_items (deduplicate cents three_items)
deduplicate_example = deduplicate-IsDeduplicated cents cents-IsOrdered three_items

apply_token_budget_example : IsLongestFit 0 6 three_items (apply_token_budget three_items 6)
apply_token_budget_example = apply_token_budget-IsLongestFit three_items 6

aggregate_example :
    IsAggregated cents same_text request
      (gather aggregator request false)
      (aggregate cents same_text aggregator request false "s2" 7)
aggregate_example =
    aggregate-IsAggregated cents same_text cents-IsOrdered aggregator request false "s2" 7

aggregate_timed_out_example :
    ((aggregate cents same_text aggregator request true "s2" 7).items ≡ [])
    × ((aggregate cents same_text aggregator request true "s2" 7).total_tokens ≡ 0)
    × ((aggregate cents same_text aggregator request true "s2" 7).degraded_sources
        ≡ map (λ t. t.0) (gather aggregator request false))
aggregate_timed_out_example =
    aggregate_timed_out cents same_text cents-IsOrdered aggregator request "s2" 7

abbrev shell : ToolDefinition ℕ
shell = record {
  tool_id = "shell";
  name = "sh";
  description = "runs a command";
  category = "";
  required_for_task_types = "task" ∷ [];
  tool_stats = some (record {
    call_time = 4;
    success_time = 3;
    total_duration_ms = 100;
    prompt_tokens = 0;
    completion_tokens = 0;
  });
}

abbrev browser : ToolDefinition ℕ
browser = record shell {
  tool_id = "browser";
  name = "web";
  required_for_task_types = [];
  tool_stats = none;
}

-- Two tools, more than the threshold, and a retriever that finds one of them.
abbrev governor : ToolContextGovernor ℕ
governor = record {
  tool_top_k = 1;
  tool_rag_threshold = 1;
  retriever = some (λ scope_id query task top_k. some (tool_item ∷ []));
  tools = ("browser", browser) ∷ ("shell", shell) ∷ [];
}

-- Two calls of one tool and one of another.
abbrev calls : List (Call ℕ)
calls =
    record { tool_id = "shell"; success = true; duration_ms = 20; prompt = 5; completion = 6 }
    ∷ record { tool_id = "browser"; success = true; duration_ms = 90; prompt = 1; completion = 1 }
    ∷ record { tool_id = "shell"; success = false; duration_ms = 30; prompt = 2; completion = 0 }
    ∷ []

record_tool_result-IsTally_example :
    (after : Option (ToolStats ℕ)) × (get (record_all cents governor calls).tools "shell"
      ≡ some (record shell { tool_stats = after }))
    × IsTally cents shell.tool_stats (calls_of "shell" calls) after
unfolding get
record_tool_result-IsTally_example =
    record_tool_result-IsTally cents governor "shell" shell calls refl
