-- ===== src/Tiers/Kept.antt =====
-- What the hot tier keeps.
use context_agent.Prelude.{
  ℕ, ◌+◌, ◌<◌, ◌≡◌, refl, ap, ◌∙◌, inl, inr, String, Option, none, some, true, false, List, [], ◌∷◌,
  arith, keep, is_nil, take, ltb, if◌then◌else◌, Bool-cases, eq_iff,
}
use context_agent.Prelude.Dict.{get, put, get-put}
use context_agent.Models.Context.{ContextItem}
use context_agent.Tiers.Hot.{
  Cache, TieredMemoryRouter, is_hot, hot_key, validate_hot, local_hot, hot_with, hot_search,
  warm_cache,
}

module _ {F : Type 0} where
  validate_hot-keep :
      (items : List (ContextItem F)) → validate_hot (keep is_hot items) ≡ some (keep is_hot items)
  unfolding validate_hot
  validate_hot-keep [] = refl
  validate_hot-keep (i ∷ items) = elim (Bool-cases (is_hot i)) [
    | inl q ↦ rw q (rw (q, validate_hot-keep items) refl)
    | inr q ↦ rw q (validate_hot-keep items)
  ]

module _ {F R : Type 0} (c : Cache F R) where
  warmed :
      (s : TieredMemoryRouter F R) (scope_id : String) (items : List (ContextItem F))
      (ttl_s : Option ℕ) (now : ℕ)
      → s.redis ≡ none
      → is_nil (keep is_hot items) ≡ false
      → warm_cache c s scope_id items ttl_s now
        ≡ record s { local_cache = put s.local_cache (hot_key scope_id) (keep is_hot items, now) }
  unfolding warm_cache
  warmed s scope_id items ttl_s now h n = ground arith

  put_self :
      (s : TieredMemoryRouter F R) (key : String) (entry : List (ContextItem F) × ℕ)
      → get (put s.local_cache key entry) key ≡ some entry
  put_self s key entry =
      get-put s.local_cache key key entry
      ∙ ap (λ c. if c then some entry else get s.local_cache key) ((eq_iff key key).1 refl)

  kept :
      (s : TieredMemoryRouter F R) (key : String) (k now ts : ℕ)
      (items valid : List (ContextItem F))
      → now < ts + s.hot_tier_ttl_s
      → validate_hot items ≡ some valid
      → (local_hot c s key k now (some (items, ts))).1 ≡ take k valid
  unfolding local_hot
  kept s key k now ts items valid early v =
      let young : ltb now (ts + s.hot_tier_ttl_s) ≡ true = ground arith in rw (young, v) refl

  -- What the hot tier is warmed with is what it gives until its lifetime is over, without Redis: the
  -- first of the items that are of the type it may hold. A lifetime that the caller gives plays no part.
  pub hot_search-warm_cache :
      (s : TieredMemoryRouter F R) (scope_id : String) (items : List (ContextItem F))
      (ttl_s : Option ℕ) (then_at now k : ℕ)
      → s.redis ≡ none
      → is_nil (keep is_hot items) ≡ false
      → now < then_at + s.hot_tier_ttl_s
      → (hot_search c (warm_cache c s scope_id items ttl_s then_at) scope_id k now).1
        ≡ some (take k (keep is_hot items))
  unfolding hot_search hot_with
  hot_search-warm_cache s scope_id items ttl_s then_at now k h n early =
      let key = hot_key scope_id in
      let s' = record s { local_cache = put s.local_cache key (keep is_hot items, then_at) } in
      ap (λ (x : TieredMemoryRouter F R). (hot_search c x scope_id k now).1)
        (warmed s scope_id items ttl_s then_at h n)
      ∙ ap (λ r. (hot_with c r s' key k now).1) h
      ∙ ap (λ e. some (local_hot c s' key k now e).1) (put_self s key (keep is_hot items, then_at))
      ∙ ap some (
          kept s' key k now then_at (keep is_hot items) (keep is_hot items) early
            (validate_hot-keep items))
