-- ===== src/Aggregation/Aggregate.antt =====
-- `aggregate`: from the answers of the sources to the snapshot.
use context_agent.Prelude.{ℕ, String, Option, none, some, Bool, List, [], ◌∷◌}
use context_agent.Prelude.Floats.{Floats}
use context_agent.Prelude.Sort.{sort_desc}
use context_agent.Models.Context.{ContextItem, ContextSnapshot, MemoryCategory}
use context_agent.Conditioning.{apply_task_conditioning, lower_score}
use context_agent.Aggregation.Filters.{apply_category_filter, apply_level_filter}
use context_agent.Aggregation.Budget.{apply_token_budget, total_tokens}
use context_agent.Aggregation.Dedup.{deduplicate}
use context_agent.Aggregation.Sources.{AggregationRequest, ContextAggregator, gather, collect}

module _ {F : Type 0} (o : Floats F) (normal : String → String) where
  -- `if request.category_filter:`; an empty list filters nothing.
  unfoldable pub filter_categories :
      Option (List MemoryCategory) → List (ContextItem F) → List (ContextItem F)
  filter_categories none items = items
  filter_categories (some []) items = items
  filter_categories (some (c ∷ l)) items = apply_category_filter items (c ∷ l)

  -- From the collected items to those of the snapshot.
  unfoldable pub select : AggregationRequest → List (ContextItem F) → List (ContextItem F)
  unfolding filter_categories
  select r all_items =
      let levelled =
        apply_level_filter (filter_categories r.category_filter all_items) r.max_level in
      let sorted_items = sort_desc (lower_score o) (deduplicate o levelled) in
      let conditioned = apply_task_conditioning o normal sorted_items r.task_type r.agent_role in
      apply_token_budget conditioned r.token_budget

  -- `timed_out` tells whether the gathering missed its deadline; `snapshot_id` and `created_at` are
  -- what the default factories return.
  unfoldable pub aggregate :
      ContextAggregator F → AggregationRequest → Bool → String → ℕ → ContextSnapshot F
  unfolding select
  aggregate c r timed_out snapshot_id created_at =
      let (all_items, degraded) = collect (gather c r timed_out) [] [] in
      let budgeted = select r all_items in
      record {
        snapshot_id = snapshot_id;
        scope_id = r.scope_id;
        user_id = "";
        session_id = r.session_id;
        query = r.query;
        items = budgeted;
        total_tokens = total_tokens budgeted;
        token_budget = r.token_budget;
        degraded_sources = degraded;
        metadata = [];
        created_at = created_at;
      }
