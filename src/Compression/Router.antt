-- ===== src/Compression/Router.antt =====
-- `context_agent/orchestration/compression_router.py`
use context_agent.Prelude.{
  ℕ, ◌/◌, String, ◌≡◌, Option, none, some, true, List, [], ◌∷◌, map, join, text_length,
}
use context_agent.Prelude.Dict.{get}
use context_agent.Prelude.Floats.{Floats}
use context_agent.Models.Values.{sequence}
use context_agent.Models.Context.{ContextSnapshot, ContextOutput, ContextItem, raw}
use context_agent.Compression.Registry.{
  Attempt, output, raised, Strategy, Registry, Result, ok, err, ◌>>=◌, find, Builtins,
}
use context_agent.Compression.Scheduler.{StrategySelectionContext, StrategySchedule, schedule}

module _ {F : Type 0} (o : Floats F) (not_found_text : String → String) where
  -- `str(error) if error is not None else "compression_fallback_raw"`
  error_text : Option String → String
  error_text none = "compression_fallback_raw"
  error_text (some e) = e

  -- `created_at` is what the default factory returns.
  unfoldable pub raw_fallback :
      ContextSnapshot F → Option String → List String → ℕ → ContextOutput F
  unfolding error_text
  raw_fallback snapshot error attempted created_at =
      let text = join "\n\n" (map (λ (i : ContextItem F). i.content) snapshot.items) in
      record {
        output_type = raw;
        scope_id = snapshot.scope_id;
        session_id = snapshot.session_id;
        user_id = "";
        content = text;
        token_count = text_length text / 4;
        snapshot = none;
        compressed_text = none;
        search_items = none;
        latency_ms = o.zero;
        degraded = true;
        error = some (error_text error);
        created_at = created_at;
        metadata = ("attempted_strategies", sequence attempted) ∷ [];
      }

  -- What one id comes to: `StrategyNotFoundError` is caught, and so is every exception of
  -- `compress`.
  unfoldable pub attempt : Registry F → ContextSnapshot F → String → Attempt F
  attempt r snapshot strategy_id = elim (find r strategy_id) [
    | err e ↦ raised (not_found_text strategy_id)
    | ok s ↦ s.compress s.llm snapshot
  ]

  -- The loop of `_apply_schedule` and what follows it; `attempted` is the whole list of ids.
  unfoldable pub try_strategies :
      Registry F
      → ContextSnapshot F
      → ℕ
      → List String
      → List String
      → Option String
      → ContextOutput F
  try_strategies r snapshot created_at attempted [] last_error =
      raw_fallback snapshot last_error attempted created_at
  try_strategies r snapshot created_at attempted (sid ∷ ids) last_error =
      elim (attempt r snapshot sid) [
        | output out ↦ out
        | raised e ↦ try_strategies r snapshot created_at attempted ids (some e)
      ]

  unfoldable pub apply_schedule :
      Registry F → ContextSnapshot F → StrategySchedule → ℕ → ContextOutput F
  unfolding try_strategies attempt
  apply_schedule r snapshot s created_at =
      try_strategies r snapshot created_at s.strategy_ids s.strategy_ids none

  module _ (b : Builtins F) where
    unfoldable pub route_and_compress :
        F
        → Registry F
        → ContextSnapshot F
        → StrategySelectionContext
        → ℕ
        → Result (Registry F × ContextOutput F)
    unfolding apply_schedule
    route_and_compress trigger_ratio r snapshot ctx created_at = do
      (r', s) ← schedule o b trigger_ratio r ctx
      ok (r', apply_schedule r' snapshot s created_at)

  -- The strategy `sid` is not registered, or its `compress` raises.
  abbrev pub Fails : Registry F → ContextSnapshot F → String → Type 0
  Fails r snapshot sid =
      (s : Strategy F) (out : ContextOutput F)
      → get r sid ≡ some s
      → ¬ (s.compress s.llm snapshot ≡ output out)

  -- `out` is what the first strategy that does not fail returns.
  pub data FirstOutput (r : Registry F) (snapshot : ContextSnapshot F)
      : List String → ContextOutput F → Type 0 where
    here :
        {sid : String} {ids : List String} {out : ContextOutput F} (s : Strategy F)
        → get r sid ≡ some s
        → s.compress s.llm snapshot ≡ output out
        → FirstOutput r snapshot (sid ∷ ids) out
    later :
        {sid : String} {ids : List String} {out : ContextOutput F}
        → Fails r snapshot sid
        → FirstOutput r snapshot ids out
        → FirstOutput r snapshot (sid ∷ ids) out
