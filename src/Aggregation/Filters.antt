-- ===== src/Aggregation/Filters.antt =====
-- `_apply_category_filter` and `_apply_level_filter`
use context_agent.Prelude.{
  ℕ, ◌≤◌, ◌≡◌, Option, none, some, Bool, true, List, leb, any, keep, In, any_iff, ◌⊎◌, inl, inr,
  leb→le, All, All-of, keep-In, refl,
}
use context_agent.Models.Context.{
  MemoryCategory, ContextLevel, abstract, overview, detail, ContextItem, same_category,
  same_category_iff,
}

category_allowed : List MemoryCategory → Option MemoryCategory → Bool
category_allowed allowed none = true
category_allowed allowed (some c) = any (λ a. same_category c a) allowed

-- the `level_order` table
unfoldable pub level_order : ContextLevel → ℕ
level_order abstract = 0
level_order overview = 1
level_order detail = 2

category_allowed→In :
    (l : List MemoryCategory) (o : Option MemoryCategory)
    → category_allowed l o ≡ true
    → (o ≡ none) ⊎ ((c : MemoryCategory) × (o ≡ some c) × In c l)
unfolding category_allowed
category_allowed→In l none h = inl refl
category_allowed→In l (some c) h =
    inr (c, refl, (any_iff (λ a. same_category c a) c l (same_category_iff c)).0 h)

module _ {F : Type 0} where
  unfoldable pub apply_category_filter :
      List (ContextItem F) → List MemoryCategory → List (ContextItem F)
  unfolding category_allowed
  apply_category_filter items category_filter =
      keep (λ i. category_allowed category_filter i.category) items

  unfoldable pub apply_level_filter : List (ContextItem F) → ContextLevel → List (ContextItem F)
  unfolding level_order
  apply_level_filter items max_level =
      keep (λ i. leb (level_order i.level) (level_order max_level)) items

  -- An item has no category, or one of those asked for.
  abbrev pub InCategories : List MemoryCategory → ContextItem F → Type 0
  InCategories l i = (i.category ≡ none) ⊎ ((c : MemoryCategory) × (i.category ≡ some c) × In c l)

  abbrev pub AtMostLevel : ContextLevel → ContextItem F → Type 0
  AtMostLevel max_level i = level_order i.level ≤ level_order max_level

  pub apply_category_filter-All :
      (items : List (ContextItem F)) (l : List MemoryCategory)
      → All (InCategories l) (apply_category_filter items l)
  unfolding apply_category_filter
  apply_category_filter-All items l =
      All-of (InCategories l) _ λ i m. category_allowed→In l i.category (keep-In _ i items m).1

  pub apply_level_filter-All :
      (items : List (ContextItem F)) (max_level : ContextLevel)
      → All (AtMostLevel max_level) (apply_level_filter items max_level)
  unfolding apply_level_filter
  apply_level_filter-All items max_level =
      All-of (AtMostLevel max_level) _ λ i m. leb→le _ _ (keep-In _ i items m).1
