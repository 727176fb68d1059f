-- ===== src/Compression/Scheduler.antt =====
-- `context_agent/orchestration/strategy_scheduler.py`
use context_agent.Prelude.{
  ℕ, String, none, Bool, true, List, [], ◌∷◌, ◌++◌, ◌&&◌, ◌||◌, not, eqb, ltb, if◌then◌else◌, ◌==◌,
  contains, is_nil,
}
use context_agent.Prelude.Floats.{Floats}
use context_agent.Models.Values.{Metadata}
use context_agent.Compression.Registry.{
  Registry, Builtins, Result, ok, ◌>>=◌, list_ids, ensure_default_strategies_registered,
}

pub record StrategySelectionContext : Type 0 where
  pub scope_id : String
  pub task_type : String
  pub agent_role : String
  pub token_used : ℕ
  pub token_budget : ℕ
  pub turn_count : ℕ
  pub has_multimodal : Bool
  pub metadata : Metadata

-- The notes, without their wording.
pub data Note : Type 0 where
  not_registered_note : String → Note
  auto_long_session auto_compaction auto_qa prepended_realtime : Note

pub record StrategySchedule : Type 0 where
  pub strategy_ids : List String
  pub enable_hybrid_retrieval : Bool
  pub enable_graph_retrieval : Bool
  pub enable_ltm : Bool
  pub rerank : Bool
  pub notes : List Note

-- `TASK_TYPE_MAP.get(task_type, [])`
unfoldable pub task_type_map : String → List String
task_type_map t =
    if t == "qa"
    then "qa" ∷ []
    else if t == "task"
    then "task" ∷ []
    else if t == "long_session"
    then "long_session" ∷ []
    else if t == "realtime"
    then "realtime" ∷ []
    else if t == "compaction"
    then "compaction" ∷ []
    else []

-- The loop over the preferred ids.
unfoldable pub prefer :
    List String → List String → List String → List Note → List String × List Note
prefer [] available ids notes = (ids, notes)
prefer (sid ∷ preferred) available ids notes =
    let taken = prefer preferred available (ids ++ sid ∷ []) notes in
    let skipped = prefer preferred available ids (notes ++ not_registered_note sid ∷ []) in
    if contains available sid then taken else skipped

module _ {F : Type 0} (o : Floats F) where
  unfoldable pub utilisation : StrategySelectionContext → F
  utilisation ctx =
      if eqb ctx.token_budget 0
      then o.zero
      else o.div (o.of_int ctx.token_used) (o.of_int ctx.token_budget)

  -- Step 2, the fallback.
  unfoldable pub auto_select : F → StrategySelectionContext → List Note → List String × List Note
  auto_select trigger_ratio ctx notes =
      if ltb 20 ctx.turn_count
      then ("long_session" ∷ [], notes ++ auto_long_session ∷ [])
      else if o.lt trigger_ratio (utilisation ctx)
      then ("compaction" ∷ [], notes ++ auto_compaction ∷ [])
      else if ctx.task_type == ""
      then ("qa" ∷ [], notes ++ auto_qa ∷ [])
      else ([], notes)

  -- Step 3, the override.
  unfoldable pub override_realtime :
      List String → StrategySelectionContext → List String × List Note → List String × List Note
  override_realtime available ctx (ids, notes) =
      if o.lt (o.hundredths 95) (utilisation ctx)
        && (contains available "realtime" && not (contains ids "realtime"))
      then ("realtime" ∷ ids, notes ++ prepended_realtime ∷ [])
      else (ids, notes)

  -- `trigger_ratio` is `settings.compaction_trigger_ratio`, `available` the registered ids.
  unfoldable pub plan : F → List String → StrategySelectionContext → StrategySchedule
  plan trigger_ratio available ctx =
      let (preferred, notes) = prefer (task_type_map ctx.task_type) available [] [] in
      let selected =
        if is_nil preferred then auto_select trigger_ratio ctx notes else (preferred, notes) in
      let (ids, all_notes) = override_realtime available ctx selected in
      record {
        strategy_ids = ids;
        enable_hybrid_retrieval = true;
        enable_graph_retrieval =
            ctx.task_type == "task" || (ctx.task_type == "compaction" || ltb 10 ctx.turn_count);
        enable_ltm = not (ctx.agent_role == "reviewer");
        rerank = o.lt (utilisation ctx) (o.hundredths 90);
        notes = all_notes;
      }

  module _ (b : Builtins F) where
    -- `schedule` registers what is missing before it looks.
    unfoldable pub schedule :
        F → Registry F → StrategySelectionContext → Result (Registry F × StrategySchedule)
    schedule trigger_ratio r ctx = do
      r' ← ensure_default_strategies_registered b r none
      ok (r', plan trigger_ratio (list_ids r') ctx)
