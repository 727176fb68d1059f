-- ===== src/Retrieval/Fusion.antt =====
-- `_rrf_fuse`: reciprocal rank fusion of several lists, blended with hotness.
use context_agent.Prelude.{
  ℕ, suc, ◌+◌, String, Option, none, some, Bool, List, [], ◌∷◌, if◌then◌else◌, take,
}
use context_agent.Prelude.Dict.{Dict, get, put, get_or, keys}
use context_agent.Prelude.Floats.{Floats}
use context_agent.Prelude.Sort.{sort_desc}
use context_agent.Models.Context.{ContextItem}
use context_agent.Retrieval.Hotness.{Maths, compute_hotness}

-- The two dicts of the loop.
pub record Tally (F : Type 0) : Type 0 where
  pub scores : Dict F
  pub item_map : Dict (ContextItem F)

module _ {F : Type 0} (o : Floats F) where
  unfoldable pub count_item : ℕ → ℕ → ContextItem F → Tally F → Tally F
  count_item k rank item t =
      let rrf_score = o.div o.one (o.of_int (k + rank + 1)) in
      record {
        scores = put t.scores item.item_id (o.add (get_or t.scores item.item_id o.zero) rrf_score);
        item_map = put t.item_map item.item_id item;
      }

  -- `for rank, item in enumerate(results)`, from some rank on
  unfoldable pub count_results : ℕ → ℕ → List (ContextItem F) → Tally F → Tally F
  unfolding count_item
  count_results k rank [] t = t
  count_results k rank (item ∷ items) t =
      count_results k (suc rank) items (count_item k rank item t)

  unfoldable pub count_lists : ℕ → List (List (ContextItem F)) → Tally F → Tally F
  unfolding count_results
  count_lists k [] t = t
  count_lists k (l ∷ lists) t = count_lists k lists (count_results k 0 l t)

  unfoldable pub less : Dict F → String → String → Bool
  less scores a b = o.lt (get_or scores a o.zero) (get_or scores b o.zero)

  -- `min(1.0, v)`
  unfoldable pub capped : F → F
  capped v = if o.lt v o.one then v else o.one

module _ {F : Type 0} (o : Floats F) (m : Maths F) (now k : ℕ) (alpha half_life_days : F) where
  -- The body of the second loop, for an item that is there; `none` where the hotness raises.
  unfoldable pub blend : F → ContextItem F → Option (ContextItem F)
  unfolding capped
  blend rrf item =
      elim (compute_hotness o m now (some item.active_count) (some item.updated_at)
        half_life_days) [
          | none ↦ none
          | some hotness ↦ some (record item {
            score = capped o (
                o.add (o.mul (o.sub o.one alpha) (m.tanh (o.mul rrf (o.of_int k))))
                  (o.mul alpha hotness));
          })
        ]

  blend_found : F → Option (ContextItem F) → Option (ContextItem F)
  unfolding blend
  blend_found rrf none = none
  blend_found rrf (some item) = blend rrf item

  and_then : Option (ContextItem F) → Option (List (ContextItem F)) → Option (List (ContextItem F))
  and_then none rest = none
  and_then (some i) none = none
  and_then (some i) (some l) = some (i ∷ l)

  unfoldable pub collect : Tally F → List String → Option (List (ContextItem F))
  unfolding blend_found and_then
  collect t [] = some []
  collect t (iid ∷ ids) =
      and_then (blend_found (get_or t.scores iid o.zero) (get t.item_map iid)) (collect t ids)

  unfoldable pub rrf_fuse : ℕ → List (List (ContextItem F)) → Option (List (ContextItem F))
  unfolding collect count_lists less
  rrf_fuse top_k result_lists =
      let t = count_lists o k result_lists (record { scores = []; item_map = [] }) in
      collect t (take top_k (sort_desc (less o t.scores) (keys t.scores)))
