-- ===== src/Examples/Tiering.antt =====
-- The tiers.
use context_agent.Prelude.{
  ℕ, ◌≡◌, refl, none, some, false, [], ◌∷◌, arith, take, keep, subst, eq_of_some, ◌≢◌,
}
use context_agent.Models.Context.{semantic, same_memory_type}
use context_agent.Tiers.Hot.{
  Cache, TieredMemoryRouter, timed_out, answer, caught, uncaught, is_hot, hot_search, warm_cache,
}
use context_agent.Tiers.Router
use context_agent.Tiers.Router.{Stores, Latencies, effective_top_k}
use context_agent.Tiers.Passed.{IsCalm, AreTiered}
use context_agent.Tiers.Tiered.{IsTiered, search-AreTiered}
use context_agent.Tiers.Kept.{hot_search-warm_cache}
use context_agent.Examples.Data.{cents, three_items, note_item, tool_item}

abbrev cache : Cache ℕ ℕ
cache = record {
  redis_get = λ r key. timed_out;
  redis_setex = λ r key ttl s. (r, false);
  loads = λ s. none;
  dumps = λ items. "";
}

-- A long-term memory that answers, and an external one that fails.
abbrev stores : Stores ℕ
stores = record {
  ltm_search = λ scope_id query k types filters budget. answer (note_item ∷ []);
  external = some (λ scope_id query k filters budget. caught);
}

abbrev router : TieredMemoryRouter ℕ ℕ
router = record {
  redis = none;
  local_cache = ("ca:hot:team", (tool_item ∷ [], 3)) ∷ [];
  hot_tier_ttl_s = 60;
  default_top_k = 10;
}

stores-IsCalm : IsCalm cents cache stores
stores-IsCalm = record {
  redis = λ r key e. cc;
  ltm = λ scope_id query k types filters budget e. cc;
  external = λ find e scope_id query k filters budget.
      subst (λ g. g scope_id query k filters budget ≢ uncaught) (eq_of_some e) (λ u. cc);
}

search-AreTiered_example :
    AreTiered
      (IsTiered cents cache stores router "team" "what is next"
        (effective_top_k (some 0) 10)
        (some (semantic ∷ []))
        []
        12)
      (effective_top_k (some 0) 10)
      (Router.search cents cache stores router "team" "what is next"
        (some 0)
        (some (semantic ∷ []))
        []
        300
        (record { hot = 1; warm = 50; cold = 90 })
        12).1
search-AreTiered_example =
    search-AreTiered cents cache stores stores-IsCalm router "team" "what is next" (some 0)
      (some (semantic ∷ [])) [] 300 (record { hot = 1; warm = 50; cold = 90 }) 12

hot_search-warm_cache_example :
    (hot_search cache (warm_cache cache router "desk" three_items (some 5) 10) "desk" 2 20).1
    ≡ some (take 2 (keep is_hot three_items))
unfolding is_hot same_memory_type
hot_search-warm_cache_example =
    hot_search-warm_cache cache router "desk" three_items (some 5) 10 20 2 refl refl (omega arith)
