-- ===== src/Retrieval/Coordinator.antt =====
-- `search`: the paths that a plan enables, their fusion, and what follows. A path's call is what it
-- comes to: a list, or `none` where it raises. Whether the paths together miss the deadline is an
-- argument.
use context_agent.Prelude.{
  ℕ, ◌*◌, String, ◌==◌, Option, none, some, Bool, not, ◌&&◌, List, [], ◌∷◌, ◌++◌, keep, is_nil,
  take, if◌then◌else◌, starts_with,
}
use context_agent.Prelude.Floats.{Floats}
use context_agent.Models.Values.{Metadata, get_or_empty, str_of}
use context_agent.Models.Context.{ContextItem}
use context_agent.Conditioning.{apply_task_conditioning}
use context_agent.Retrieval.Hotness.{Maths}
use context_agent.Retrieval.Fusion.{rrf_fuse}

pub record RetrievalPlan (F : Type 0) : Type 0 where
  pub query : String
  pub scope_id : String
  pub task_type : String
  pub agent_role : String
  pub top_k : ℕ
  pub enable_hybrid : Bool
  pub enable_graph : Bool
  pub enable_ltm : Bool
  pub enable_hierarchy : Bool
  pub hierarchy_prefix : String
  pub vector_weight : F
  pub sparse_weight : F
  pub rerank : Bool
  pub rerank_top_k : ℕ
  pub timeout_ms : F
  pub rrf_k : ℕ
  pub filters : Metadata

pub record Paths (F : Type 0) : Type 0 where
  pub hybrid_search : String → String → ℕ → F → F → Metadata → Option (List (ContextItem F))
  pub graph_search : String → String → Option (List (ContextItem F))
  pub rerank_items : String → List (ContextItem F) → ℕ → Option (List (ContextItem F))
  -- `none` where there is no long-term memory
  pub ltm_search : Option (String → String → ℕ → Option (List (ContextItem F)))

module _ {F : Type 0} (p : Paths F) where
  ltm_path : RetrievalPlan F → List (Option (List (ContextItem F)))
  ltm_path plan = elim p.ltm_search [
    | none ↦ []
    | some search ↦ if plan.enable_ltm then search plan.scope_id plan.query plan.top_k ∷ [] else []
  ]

  -- What the tasks come to, in their order.
  unfoldable pub run_paths : RetrievalPlan F → List (Option (List (ContextItem F)))
  unfolding ltm_path
  run_paths plan =
      (if plan.enable_hybrid
        then p.hybrid_search plan.scope_id plan.query plan.top_k plan.vector_weight
            plan.sparse_weight plan.filters
          ∷ []
        else [])
      ++ ((if plan.enable_graph then p.graph_search plan.scope_id plan.query ∷ [] else [])
          ++ ltm_path plan)

module _ {F : Type 0} where
  -- A path that has failed counts as one that found nothing.
  unfoldable pub successes : List (Option (List (ContextItem F))) → List (List (ContextItem F))
  successes [] = []
  successes (none ∷ l) = [] ∷ successes l
  successes (some items ∷ l) = items ∷ successes l

module _ {F : Type 0} (show : List String → String) where
  unfoldable pub hierarchy_filter : List (List (ContextItem F)) → String → List (ContextItem F)
  hierarchy_filter [] prefix = []
  hierarchy_filter (l ∷ lists) prefix =
      keep
        (λ (i : ContextItem F). starts_with (str_of show (get_or_empty i.metadata "source")) prefix)
        l
      ++ hierarchy_filter lists prefix

  -- The lists that are fused.
  unfoldable pub collected_lists : Paths F → RetrievalPlan F → Bool → List (List (ContextItem F))
  unfolding run_paths successes hierarchy_filter
  collected_lists p plan timed_out =
      let all_items = if timed_out then [] else successes (run_paths p plan) in
      if plan.enable_hierarchy && not (plan.hierarchy_prefix == "")
      then all_items ++ hierarchy_filter all_items plan.hierarchy_prefix ∷ []
      else all_items

module _ {F : Type 0} (o : Floats F) (m : Maths F) (normal : String → String)
    (show : List String → String) (hotness_alpha half_life_days : F) where
  unfoldable pub reranked :
      Paths F → RetrievalPlan F → List (ContextItem F) → Option (List (ContextItem F))
  reranked p plan fused =
      if plan.rerank && not (is_nil fused)
      then p.rerank_items plan.query fused plan.rerank_top_k
      else some fused

  unfoldable pub finish :
      RetrievalPlan F → Option (List (ContextItem F)) → Option (List (ContextItem F))
  finish plan none = none
  finish plan (some items) =
      some (take plan.top_k (apply_task_conditioning o normal items plan.task_type plan.agent_role))

  -- What follows the fusion.
  unfoldable pub after_fusion :
      Paths F → RetrievalPlan F → Option (List (ContextItem F)) → Option (List (ContextItem F))
  unfolding reranked finish
  after_fusion p plan none = none
  after_fusion p plan (some fused) = finish plan (reranked p plan fused)

  -- `none` where the fusion or the reranker raises.
  unfoldable pub search : Paths F → RetrievalPlan F → Bool → ℕ → Option (List (ContextItem F))
  unfolding after_fusion
  search p plan timed_out now = after_fusion p plan (
      rrf_fuse o m now plan.rrf_k hotness_alpha half_life_days (plan.top_k * 2)
        (collected_lists show p plan timed_out))
