-- ===== src/Aggregation/Selection.antt =====
-- What the snapshot of `aggregate` holds.
use context_agent.Prelude.{
  ℕ, ◌≤◌, String, ◌≡◌, refl, sym, ap, subst, ◌∙◌, Option, none, some, Bool, true, false, List, [],
  ◌∷◌, map, arith, In, All, All-of, All-take, All→, All-keep, Pairwise, Pairwise-take, keep-In,
}
use context_agent.Prelude.Floats.{Floats, IsOrdered}
use context_agent.Prelude.Sort.{
  sort_desc, Descending, Descending-take, sort_desc-Descending, All-sort_desc, Pairwise-sort_desc,
}
use context_agent.Models.Context.{
  ContextItem, ContextSnapshot, MemoryCategory, is_over_budget, is_over_budget_of_le,
}
use context_agent.Conditioning.{
  apply_task_conditioning, lower_score, All-apply_task_conditioning,
  Pairwise-apply_task_conditioning, Descending-apply_task_conditioning,
}
use context_agent.Aggregation.Filters.{
  apply_category_filter, apply_level_filter, InCategories, AtMostLevel, apply_category_filter-All,
  apply_level_filter-All,
}
use context_agent.Aggregation.Budget.{
  apply_token_budget, total_tokens, IsLongestFit, apply_token_budget-IsLongestFit,
}
use context_agent.Aggregation.Dedup.{deduplicate, DifferentIds, deduplicate-IsDeduplicated}
use context_agent.Aggregation.Sources.{
  AggregationRequest, ContextAggregator, Reply, raised, gather, listed_items, failed_labels,
  collect_lem,
}
use context_agent.Aggregation.Aggregate.{filter_categories, select, aggregate}

-- A request that names categories gets items of these, and items without a category.
abbrev pub Wanted : {F : Type 0} → Option (List MemoryCategory) → ContextItem F → Type 0
Wanted none i = Unit
Wanted (some []) i = Unit
Wanted (some (c ∷ l)) i = InCategories (c ∷ l) i

Wanted-rescored :
    {F : Type 0} (f : Option (List MemoryCategory)) (i : ContextItem F) (s : F)
    → Wanted f i
    → Wanted f (record i { score = s })
Wanted-rescored none i s h = tt
Wanted-rescored (some []) i s h = tt
Wanted-rescored (some (c ∷ l)) i s h = h

abbrev scored : {F : Type 0} → F → ContextItem F → ContextItem F
scored s i = record i { score = s }

-- `i` is one of `items`, up to its score.
abbrev pub Origin : {F : Type 0} → List (ContextItem F) → ContextItem F → Type 0
Origin {F} items i = (j : ContextItem F) × In j items × (i ≡ record j { score = i.score })

module _ {F : Type 0} (o : Floats F) (normal : String → String) where
  -- The items chosen from `candidates` for a request.
  pub record IsSelection (r : AggregationRequest) (candidates items : List (ContextItem F))
      : Type 0 where
    pub fits : total_tokens items ≤ r.token_budget
    pub distinct : Pairwise (DifferentIds o) items
    pub sorted : Descending (lower_score o) items
    pub origin : All (Origin candidates) items
    pub level : All (AtMostLevel r.max_level) items
    pub category : All (Wanted r.category_filter) items

  filter_categories-Wanted :
      (f : Option (List MemoryCategory)) (items : List (ContextItem F))
      → All (Wanted f) (filter_categories o normal f items)
  unfolding filter_categories
  filter_categories-Wanted none items = All-of (Wanted none) items (λ i m. tt)
  filter_categories-Wanted (some []) items = All-of (Wanted (some [])) items (λ i m. tt)
  filter_categories-Wanted (some (c ∷ l)) items = apply_category_filter-All items (c ∷ l)

  filter_categories-In :
      (f : Option (List MemoryCategory)) (items : List (ContextItem F)) (i : ContextItem F)
      → In i (filter_categories o normal f items)
      → In i items
  unfolding filter_categories apply_category_filter
  filter_categories-In none items i m = m
  filter_categories-In (some []) items i m = m
  filter_categories-In (some (c ∷ l)) items i m = (keep-In _ i items m).0

  module _ (ord : IsOrdered o) (r : AggregationRequest) (candidates : List (ContextItem F)) where
    levelled : List (ContextItem F)
    levelled =
        apply_level_filter (filter_categories o normal r.category_filter candidates) r.max_level

    conditioned : List (ContextItem F)
    unfolding levelled
    conditioned =
        apply_task_conditioning o normal (sort_desc (lower_score o) (deduplicate o levelled))
          r.task_type r.agent_role

    -- What holds of every levelled item, whatever its score, holds of every selected one.
    selected-All :
        (P : ContextItem F → Type 0)
        → ((i : ContextItem F) (s : F) → P i → P (record i { score = s }))
        → ((i : ContextItem F) → In i levelled → P i)
        → All P conditioned
    unfolding conditioned
    selected-All P keeps h =
        All-apply_task_conditioning o normal P keeps _ r.task_type r.agent_role (
          All-sort_desc (lower_score o) P _
            (All-of P _ (λ i m. h i ((deduplicate-IsDeduplicated o ord levelled).source i m))))

    levelled-In : (i : ContextItem F) → In i levelled → In i candidates
    unfolding levelled apply_level_filter
    levelled-In i m = filter_categories-In r.category_filter candidates i (keep-In _ i _ m).0

    -- Every selected item is one of the candidates, up to its score, has a wanted category and a
    -- level that was asked for; no two have the same id; the highest score comes first; and
    -- together they are within the token budget, when scores are ordered as floats are that are not
    -- NaN.
    pub select-IsSelection : IsSelection r candidates (select o normal r candidates)
    unfolding select conditioned levelled
    select-IsSelection = record {
      fits = omega (arith, best.fits);
      distinct = subst (Pairwise (DifferentIds o)) (sym best.prefix) (
          Pairwise-take (DifferentIds o) _ conditioned (
            Pairwise-apply_task_conditioning o normal (DifferentIds o) (λ i j h e. h (sym e))
              (λ i j s t h. h) _ r.task_type r.agent_role
              (Pairwise-sort_desc (lower_score o) (DifferentIds o) (λ i j h e. h (sym e)) _
                (deduplicate-IsDeduplicated o ord levelled).distinct)));
      sorted = subst (Descending (lower_score o)) (sym best.prefix) (
          Descending-take (lower_score o) _ conditioned (
            Descending-apply_task_conditioning o ord normal _ r.task_type r.agent_role (
              sort_desc-Descending (lower_score o) (λ a b. ord.lt_asymm a.score b.score)
                (λ a b c. ord.not_lt_trans a.score b.score c.score) _)));
      origin = prefix-All (Origin candidates) (
          selected-All (Origin candidates) (λ i s h. (h.0, h.1, ap (scored s) h.2))
            (λ i m. (i, levelled-In i m, refl)));
      level = prefix-All (AtMostLevel r.max_level) (
          selected-All (AtMostLevel r.max_level) (λ i s h. h)
            (λ i m.
              All→ (AtMostLevel r.max_level) i levelled
                (apply_level_filter-All (filter_categories o normal r.category_filter candidates)
                  r.max_level)
                m));
      category = prefix-All (Wanted r.category_filter) (
          selected-All (Wanted r.category_filter) (Wanted-rescored r.category_filter) (λ i m.
            All→ (Wanted r.category_filter) i levelled
              (unfold apply_level_filter in
                All-keep (Wanted r.category_filter) _ _
                  (filter_categories-Wanted r.category_filter candidates))
              m));
    }
      where
        best :
            IsLongestFit 0 r.token_budget conditioned
              (apply_token_budget conditioned r.token_budget)
        best = apply_token_budget-IsLongestFit conditioned r.token_budget

        prefix-All :
            (P : ContextItem F → Type 0)
            → All P conditioned
            → All P (apply_token_budget conditioned r.token_budget)
        prefix-All P h = subst (All P) (sym best.prefix) (All-take P _ conditioned h)

  -- A snapshot of what the sources answered.
  pub record IsAggregated (r : AggregationRequest) (results : List (String × Reply F))
      (s : ContextSnapshot F) : Type 0 where
    pub counted : s.total_tokens ≡ total_tokens s.items
    pub in_budget : is_over_budget s ≡ false
    pub degraded : s.degraded_sources ≡ failed_labels results
    pub selected : IsSelection r (listed_items results) s.items

  -- The snapshot of an aggregation reports the tokens of its items, is never over its budget, names
  -- as degraded exactly the sources that gave no list, and its items are selected from what the
  -- other sources listed: they fit the budget, have different ids, come highest score first, are
  -- listed items up to their score, and have a wanted category and a level that was asked for. The
  -- scores are taken to be ordered as floats are that are not NaN.
  pub aggregate-IsAggregated :
      (ord : IsOrdered o)
      → (c : ContextAggregator F) (r : AggregationRequest) (timed_out : Bool) (snapshot_id : String)
      → (created_at : ℕ)
      → IsAggregated r
          (gather c r timed_out)
          (aggregate o normal c r timed_out snapshot_id created_at)
  unfolding aggregate
  aggregate-IsAggregated ord c r timed_out snapshot_id created_at = rw collect_lem (record {
    counted = refl;
    in_budget = is_over_budget_of_le _ selection.fits;
    degraded = refl;
    selected = selection;
  })
    where
      selection :
          IsSelection r
            (listed_items (gather c r timed_out))
            (select o normal r (listed_items (gather c r timed_out)))
      selection = select-IsSelection ord r (listed_items (gather c r timed_out))

  -- When the gathering misses its deadline the snapshot is empty, with no tokens, and every source
  -- that was asked is named as degraded (for scores ordered as floats are that are not NaN).
  pub aggregate_timed_out :
      (ord : IsOrdered o)
      → (c : ContextAggregator F) (r : AggregationRequest) (snapshot_id : String) (created_at : ℕ)
      → ((aggregate o normal c r true snapshot_id created_at).items ≡ [])
        × ((aggregate o normal c r true snapshot_id created_at).total_tokens ≡ 0)
        × ((aggregate o normal c r true snapshot_id created_at).degraded_sources
            ≡ map (λ t. t.0) (gather c r false))
  unfolding gather listed_items failed_labels
  aggregate_timed_out ord c r snapshot_id created_at = (
    none_selected,
    all.counted ∙ ap total_tokens none_selected ∙ (unfold total_tokens in refl),
    all.degraded ∙ all_failed _,
  )
    where
      all : IsAggregated r (gather c r true) (aggregate o normal c r true snapshot_id created_at)
      all = aggregate-IsAggregated ord c r true snapshot_id created_at

      nothing_listed :
          (ts : List (String × Reply F))
          → listed_items (map {B = String × Reply F} (λ t. (t.0, raised)) ts) ≡ []
      nothing_listed [] = refl
      nothing_listed (t ∷ ts) = nothing_listed ts

      all_failed :
          (ts : List (String × Reply F))
          → failed_labels (map {B = String × Reply F} (λ t. (t.0, raised)) ts) ≡ map (λ t. t.0) ts
      all_failed [] = refl
      all_failed (t ∷ ts) = ap (◌∷◌ t.0) (all_failed ts)

      no_origin : (items : List (ContextItem F)) → All (Origin []) items → items ≡ []
      no_origin [] h = refl
      no_origin (i ∷ items) h = absurd (h.0).1

      none_selected : (aggregate o normal c r true snapshot_id created_at).items ≡ []
      none_selected = no_origin _ (
          subst (λ l. All (Origin l) (aggregate o normal c r true snapshot_id created_at).items)
            (nothing_listed (gather c r false)) all.selected.origin)
