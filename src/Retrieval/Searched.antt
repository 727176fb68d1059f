-- ===== src/Retrieval/Searched.antt =====
-- What a search gives.
use context_agent.Prelude.{
  ℕ, ◌*◌, ◌≤◌, ◌≡◌, ap, ◌∙◌, String, ◌==◌, eq_iff, some, Bool, true, false, List, arith, length,
  length-take-le, take, All, All-take, Pairwise, Pairwise-take,
}
use context_agent.Prelude.Floats.{Floats, IsOrdered}
use context_agent.Models.Context.{ContextItem}
use context_agent.Conditioning.{
  apply_task_conditioning, All-apply_task_conditioning, Pairwise-apply_task_conditioning,
}
use context_agent.Retrieval.Hotness.{Maths}
use context_agent.Retrieval.Fused.{Anywhere, rrf_fuse-IsFusion}
use context_agent.Retrieval.Coordinator.{
  RetrievalPlan, Paths, collected_lists, reranked, finish, after_fusion, search,
}

module _ {F : Type 0} (o : Floats F) where
  -- One of the items of the lists, up to its score.
  abbrev pub IsFrom : List (List (ContextItem F)) → ContextItem F → Type 0
  IsFrom lists r = (i : ContextItem F) × Anywhere i lists × (r ≡ record i { score = r.score })

  -- At most so many items of the lists, of different ids.
  pub record IsFound (lists : List (List (ContextItem F))) (n : ℕ) (result : List (ContextItem F))
      : Type 0 where
    pub from : All (IsFrom lists) result
    pub distinct : Pairwise (λ (a b : ContextItem F). (a.item_id == b.item_id) ≡ false) result
    pub bounded : length result ≤ n

  rescored-IsFrom :
      (lists : List (List (ContextItem F))) (r : ContextItem F) (s : F)
      → IsFrom lists r
      → IsFrom lists (record r { score = s })
  rescored-IsFrom lists r s (i, inside, e) =
      (i, inside, ap (λ (x : ContextItem F). record x { score = s }) e)

  module _ (m : Maths F) (normal : String → String) (show : List String → String)
      (hotness_alpha half_life_days : F) (ord : IsOrdered o)
      (positive : o.lt o.zero half_life_days ≡ true) where
    unranked :
        (p : Paths F) (plan : RetrievalPlan F) (fused : List (ContextItem F))
        → plan.rerank ≡ false
        → reranked o m normal show hotness_alpha half_life_days p plan fused ≡ some fused
    unfolding reranked
    unranked p plan fused h = ground arith

    -- Without reranking, and with a positive half-life, a search never raises, whichever paths fail and
    -- whether or not they miss the deadline: it gives at most `top_k` items, of different ids, each of
    -- which an enabled path or the hierarchy filter has found, up to its score.
    pub search-IsFound :
        (p : Paths F) (plan : RetrievalPlan F) (timed_out : Bool) (now : ℕ)
        → plan.rerank ≡ false
        → (result : List (ContextItem F)) × (search o m normal show hotness_alpha half_life_days p
              plan timed_out now
            ≡ some result)
          × IsFound (collected_lists show p plan timed_out) plan.top_k result
    unfolding search after_fusion finish
    search-IsFound p plan timed_out now h =
        let lists = collected_lists show p plan timed_out in
        let (fused, e, f) =
          rrf_fuse-IsFusion o m now plan.rrf_k hotness_alpha half_life_days ord positive
            (plan.top_k * 2) lists in
        let conditioned = apply_task_conditioning o normal fused plan.task_type plan.agent_role in
        (
          take plan.top_k conditioned,
          ap (λ x. after_fusion o m normal show hotness_alpha half_life_days p plan x) e
              ∙ ap (λ x. finish o m normal show hotness_alpha half_life_days plan x)
                  (unranked p plan fused h),
          record {
            from = All-take (IsFrom lists) plan.top_k conditioned (
                All-apply_task_conditioning o normal (IsFrom lists) (rescored-IsFrom lists) fused
                  plan.task_type plan.agent_role f.from);
            distinct = Pairwise-take _ plan.top_k conditioned (
                Pairwise-apply_task_conditioning o normal
                  (λ (a b : ContextItem F). (a.item_id == b.item_id) ≡ false)
                  (λ i j d. ground (arith, eq_iff i.item_id j.item_id, eq_iff j.item_id i.item_id))
                  (λ i j s t d. d) fused plan.task_type plan.agent_role f.distinct);
            bounded = length-take-le plan.top_k conditioned;
          },
        )
