-- ===== src/Retrieval/Counted.antt =====
-- What the counting of `_rrf_fuse` leaves: every item, once for its id.
use context_agent.Prelude.{ℕ, suc, ◌≡◌, refl, String, true, List, [], ◌∷◌, All, All-imp}
use context_agent.Prelude.Dict.{
  keys, has, Distinct, put-Distinct, has-put, has-put_self, keys-put-eq, All-put,
}
use context_agent.Prelude.Floats.{Floats}
use context_agent.Models.Context.{ContextItem}
use context_agent.Retrieval.Fusion.{Tally, count_item, count_results, count_lists}

unfoldable pub Everywhere :
    {F : Type 0} → (ContextItem F → Type 0) → List (List (ContextItem F)) → Type 0
Everywhere P lists = All (λ l. All P l) lists

module _ {F : Type 0} (o : Floats F) where
  module _ (P : ContextItem F → Type 0) where
    pub record IsTally (t : Tally F) : Type 0 where
      pub same_keys : keys t.scores ≡ keys t.item_map
      pub distinct : Distinct t.scores
      pub items : All (λ (kv : String × ContextItem F). (kv.1.item_id ≡ kv.0) × P kv.1) t.item_map

    count_item-IsTally :
        (k rank : ℕ) (item : ContextItem F) (t : Tally F)
        → P item
        → IsTally t
        → IsTally (count_item o k rank item t)
    unfolding count_item
    count_item-IsTally k rank item t p h = record {
      same_keys = keys-put-eq t.scores t.item_map item.item_id _ _ h.same_keys;
      distinct = put-Distinct t.scores item.item_id _ h.distinct;
      items = All-put _ t.item_map item.item_id item h.items (refl, p);
    }

    count_results-IsTally :
        (k rank : ℕ) (l : List (ContextItem F)) (t : Tally F)
        → All P l
        → IsTally t
        → IsTally (count_results o k rank l t)
    unfolding count_results
    count_results-IsTally k rank [] t p h = h
    count_results-IsTally k rank (i ∷ l) t p h =
        count_results-IsTally k (suc rank) l (count_item o k rank i t) p.1
          (count_item-IsTally k rank i t p.0 h)

    pub count_lists-IsTally :
        (k : ℕ) (ls : List (List (ContextItem F))) (t : Tally F)
        → Everywhere P ls
        → IsTally t
        → IsTally (count_lists o k ls t)
    unfolding count_lists Everywhere
    count_lists-IsTally k [] t p h = h
    count_lists-IsTally k (l ∷ ls) t p h =
        count_lists-IsTally k ls (count_results o k 0 l t) p.1 (count_results-IsTally k 0 l t p.0 h)

  -- What is counted once stays counted, and each item is counted.
  unfoldable pub Counted : Tally F → ContextItem F → Type 0
  Counted t i = has t.scores i.item_id ≡ true

  count_results-keeps :
      (k rank : ℕ) (l : List (ContextItem F)) (t : Tally F) (i : ContextItem F)
      → Counted t i
      → Counted (count_results o k rank l t) i
  unfolding count_results Counted count_item
  count_results-keeps k rank [] t i h = h
  count_results-keeps k rank (j ∷ l) t i h =
      count_results-keeps k (suc rank) l (count_item o k rank j t) i
        (has-put t.scores j.item_id i.item_id _ h)

  count_results-counts :
      (k rank : ℕ) (l : List (ContextItem F)) (t : Tally F)
      → All (Counted (count_results o k rank l t)) l
  unfolding count_results Counted count_item
  count_results-counts k rank [] t = tt
  count_results-counts k rank (i ∷ l) t = (
    count_results-keeps k (suc rank) l (count_item o k rank i t) i
        (has-put_self t.scores i.item_id _),
    count_results-counts k (suc rank) l (count_item o k rank i t),
  )

  count_lists-keeps :
      (k : ℕ) (ls : List (List (ContextItem F))) (t : Tally F) (i : ContextItem F)
      → Counted t i
      → Counted (count_lists o k ls t) i
  unfolding count_lists
  count_lists-keeps k [] t i h = h
  count_lists-keeps k (l ∷ ls) t i h =
      count_lists-keeps k ls (count_results o k 0 l t) i (count_results-keeps k 0 l t i h)

  pub count_lists-counts :
      (k : ℕ) (ls : List (List (ContextItem F))) (t : Tally F)
      → Everywhere (Counted (count_lists o k ls t)) ls
  unfolding count_lists Everywhere
  count_lists-counts k [] t = tt
  count_lists-counts k (l ∷ ls) t = (
    All-imp _ _ (λ i h. count_lists-keeps k ls (count_results o k 0 l t) i h) l
        (count_results-counts k 0 l t),
    count_lists-counts k ls (count_results o k 0 l t),
  )
