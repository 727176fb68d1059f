-- ===== src/Tiers/Router.antt =====
-- `search`: the three tiers one after the other, within a latency budget. The latencies of the tiers
-- are arguments.
use context_agent.Prelude.{
  ℕ, ◌-◌, ◌||◌, not, String, Option, none, some, Bool, true, List, [], ◌++◌, map, any, is_nil, take,
  leb, eqb, length, if◌then◌else◌,
}
use context_agent.Prelude.Floats.{Floats}
use context_agent.Models.Values.{Metadata}
use context_agent.Models.Context.{MemoryType, ContextItem, variable, same_memory_type}
use context_agent.Tiers.Hot.{
  Reply, answer, timed_out, caught, uncaught, Cache, TieredMemoryRouter, hot_search,
}

-- The readings of the clock, by what they come to.
pub record Latencies (F : Type 0) : Type 0 where
  pub hot : F
  pub warm : F
  pub cold : F

-- The two other tiers; the last argument is the time that is left. `external` is `none` where there
-- is none.
pub record Stores (F : Type 0) : Type 0 where
  pub ltm_search :
      String → String → ℕ → Option (List MemoryType) → Metadata → F → Reply (List (ContextItem F))
  pub external : Option (String → String → ℕ → Metadata → F → Reply (List (ContextItem F)))

module _ {F : Type 0} where
  -- The answer with its tier; a missed deadline, and the exceptions that are caught, give no items.
  unfoldable pub with_tier : String → Reply (List (ContextItem F)) → Option (List (ContextItem F))
  with_tier tier (answer items) = some (map (λ (i : ContextItem F). record i { tier = tier }) items)
  with_tier tier timed_out = some []
  with_tier tier caught = some []
  with_tier tier uncaught = none

-- `any(t in _HOT_TIER_MEMORY_TYPES for t in memory_types or list(MemoryType))`
unfoldable pub asks_hot : Option (List MemoryType) → Bool
asks_hot none = true
asks_hot (some types) = is_nil types || any (λ (t : MemoryType). same_memory_type t variable) types

-- `top_k or retrieval_default_top_k`
unfoldable pub effective_top_k : Option ℕ → ℕ → ℕ
effective_top_k none default = default
effective_top_k (some k) default = if eqb k 0 then default else k

module _ {F R : Type 0} (o : Floats F) (c : Cache F R) (b : Stores F) where
  -- `remaining_budget <= 0`
  unfoldable pub is_spent : F → Bool
  is_spent budget = not (o.lt o.zero budget)

  unfoldable pub extend :
      List (ContextItem F) → Option (List (ContextItem F)) → ℕ → Option (List (ContextItem F))
  extend results none k = none
  extend results (some items) k = some (take k (results ++ items))

  -- The cold tier, where the warm one has left room, time and a store.
  unfoldable pub cold_tier :
      String → String → ℕ → Metadata → F → List (ContextItem F) → Option (List (ContextItem F))
  unfolding is_spent with_tier extend
  cold_tier scope_id query k filters budget results =
      if leb k (length results) || is_spent budget then some (take k results) else elim b.external [
        | none ↦ some (take k results)
        | some search ↦
            extend results
              (with_tier "cold" (search scope_id query (k - length results) filters budget)) k
      ]

  unfoldable pub after_warm :
      String
      → String
      → ℕ
      → Metadata
      → F
      → List (ContextItem F)
      → Option (List (ContextItem F))
      → Option (List (ContextItem F))
  unfolding cold_tier
  after_warm scope_id query k filters budget results none = none
  after_warm scope_id query k filters budget results (some items) =
      cold_tier scope_id query k filters budget (results ++ items)

  unfoldable pub warm_tier :
      String
      → String
      → ℕ
      → Option (List MemoryType)
      → Metadata
      → F
      → Latencies F
      → List (ContextItem F)
      → Option (List (ContextItem F))
  unfolding after_warm is_spent with_tier
  warm_tier scope_id query k memory_types filters budget l results =
      if leb k (length results) || is_spent budget
      then some (take k results)
      else after_warm scope_id query k filters (o.sub budget l.warm) results (
          with_tier "warm"
            (b.ltm_search scope_id query (k - length results) memory_types filters budget))

  unfoldable pub after_hot :
      String
      → String
      → ℕ
      → Option (List MemoryType)
      → Metadata
      → F
      → Latencies F
      → Option (List (ContextItem F))
      → Option (List (ContextItem F))
  unfolding warm_tier
  after_hot scope_id query k memory_types filters budget l none = none
  after_hot scope_id query k memory_types filters budget l (some items) =
      warm_tier scope_id query k memory_types filters budget l items

  -- The router afterwards, and the items; `none` where an exception is not caught.
  unfoldable pub search :
      TieredMemoryRouter F R
      → String
      → String
      → Option ℕ
      → Option (List MemoryType)
      → Metadata
      → F
      → Latencies F
      → ℕ
      → TieredMemoryRouter F R × Option (List (ContextItem F))
  unfolding after_hot
  search s scope_id query top_k memory_types filters latency_budget_ms l now =
      let k = effective_top_k top_k s.default_top_k in
      let (s', hot_items) = hot_search c s scope_id k now in
      if asks_hot memory_types
      then (
        s',
        after_hot scope_id query k memory_types filters (o.sub latency_budget_ms l.hot) l hot_items,
      )
      else (s, warm_tier scope_id query k memory_types filters latency_budget_ms l [])
