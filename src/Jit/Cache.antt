-- ===== src/Jit/Cache.antt =====
-- The in-process cache of `context_agent/core/context/jit_resolver.py`. Times are whole ticks of the
-- monotonic clock; each function takes the reading that it makes as `now`.
use context_agent.Prelude.{
  ℕ, ◌+◌, ◌-◌, String, Option, none, some, Bool, List, [], ◌∷◌, leb, ltb, if◌then◌else◌, take,
  length,
}
use context_agent.Prelude.Dict.{Dict, get, put, remove, keys}
use context_agent.Prelude.Sort.{sort_desc}

-- `_LocalCacheEntry`
pub record CacheEntry (A : Type 0) : Type 0 where
  pub items : A
  pub created_at : ℕ
  pub ttl_s : ℕ

-- `now - self.created_at >= self.ttl_s`
unfoldable pub is_expired : {A : Type 0} → CacheEntry A → ℕ → Bool
is_expired e now = leb (e.created_at + e.ttl_s) now

module _ {A : Type 0} where
  unfoldable pub expired_keys : Dict (CacheEntry A) → ℕ → List String
  expired_keys [] now = []
  expired_keys ((k, e) ∷ d) now =
      if is_expired e now then k ∷ expired_keys d now else expired_keys d now

  -- `for key in keys: d.pop(key, None)`
  unfoldable pub pop_all : Dict (CacheEntry A) → List String → Dict (CacheEntry A)
  pop_all d [] = d
  pop_all d (k ∷ ks) = pop_all (remove d k) ks

  -- `d[key].created_at`
  unfoldable pub created : Dict (CacheEntry A) → String → ℕ
  created d k = elim (get d k) [ none ↦ 0 | some e ↦ e.created_at ]

  -- The order of `sorted(d, key=...)`, ascending, read from its other end.
  abbrev pub younger : Dict (CacheEntry A) → String → String → Bool
  younger d a b = ltb (created d b) (created d a)

  unfoldable pub oldest_keys : Dict (CacheEntry A) → ℕ → List String
  oldest_keys d overflow = take overflow (sort_desc (younger d) (keys d))

  -- `_prune_local_cache`; an overflow of zero or less pops nothing.
  unfoldable pub prune : ℕ → Dict (CacheEntry A) → ℕ → Dict (CacheEntry A)
  prune max_entries d now =
      let live = pop_all d (expired_keys d now) in
      pop_all live (oldest_keys live (length live - max_entries))

  -- `_get_local_cache`: the cache after it, and the items.
  unfoldable pub read_entry : String → ℕ → Dict (CacheEntry A) → Dict (CacheEntry A) × Option A
  read_entry k now d = elim (get d k) [
    | none ↦ (d, none)
    | some e ↦ if is_expired e now then (remove d k, none) else (d, some e.items)
  ]

  unfoldable pub get_local_cache :
      ℕ → Dict (CacheEntry A) → String → ℕ → Dict (CacheEntry A) × Option A
  unfolding read_entry
  get_local_cache max_entries d k now = read_entry k now (prune max_entries d now)

  -- `_set_local_cache`
  unfoldable pub set_local_cache :
      ℕ → Dict (CacheEntry A) → String → A → ℕ → ℕ → Dict (CacheEntry A)
  set_local_cache max_entries d k items ttl_s now =
      prune max_entries
        (put (prune max_entries d now) k
          (record { items = items; created_at = now; ttl_s = ttl_s }))
        now
