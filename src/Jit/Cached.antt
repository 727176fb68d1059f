-- ===== src/Jit/Cached.antt =====
-- Reading the cache after writing it.
use context_agent.Prelude.{
  ◌⊎◌, ℕ, ◌+◌, ◌-◌, ◌≤◌, ◌<◌, String, ◌≡◌, refl, ap, ◌∙◌, none, some, Option-cases, false, List, [],
  ◌∷◌, ◌++◌, arith, ◌==◌, eq_iff, if◌then◌else◌, length, contains, All, All-of, All-take,
  Bool-cases, inl, inr, take_of_append,
}
use context_agent.Prelude.Dict.{
  get, put, keys, has, Distinct, get-put, put-Distinct, length-put-has, put_of_not-has, keys-append,
  contains-keys, length-put-le, get_of_Absent,
}
use context_agent.Prelude.Sort.{sort_desc, length-sort_desc, All-sort_desc, sort_desc-append_last}
use context_agent.Jit.Cache.{
  CacheEntry, is_expired, expired_keys, pop_all, created, younger, oldest_keys, prune, read_entry,
  get_local_cache, set_local_cache,
}
use context_agent.Jit.Pruning.{
  Cached, get-pop_all, get-live, get-prune, length-prune-le, prune-Distinct, prune_of_length-le,
  length-keys,
}
use context_agent.Jit.Looking.{IsCache}

not-contains_of_All :
    (k : String) (l : List String) → All (λ j. (k == j) ≡ false) l → contains l k ≡ false
not-contains_of_All k [] h = refl
not-contains_of_All k (j ∷ l) h = rw (h.0) (not-contains_of_All k l h.1)

All-not-contains :
    (k : String) (l : List String) → contains l k ≡ false → All (λ j. (k == j) ≡ false) l
All-not-contains k [] h = tt
All-not-contains k (j ∷ l) h = (ground arith, All-not-contains k l (ground arith))

module _ {A : Type 0} where
  expired_keys_of_fresh :
      (d : Cached A) (now : ℕ)
      → Distinct d
      → ((k : String) (e : CacheEntry A) → get d k ≡ some e → is_expired e now ≡ false)
      → expired_keys d now ≡ []
  unfolding expired_keys get
  expired_keys_of_fresh [] now h f = refl
  expired_keys_of_fresh ((k, e) ∷ d) now h f = rw (f k e (ground (arith, eq_iff k k))) (
      expired_keys_of_fresh d now h.1
        (λ j w q. f j w (ground (arith, eq_iff k j, get_of_Absent d k h.0))))

  created_of :
      (d : Cached A) (k : String) (e : CacheEntry A) → get d k ≡ some e → created d k ≡ e.created_at
  unfolding created
  created_of d k e q = ground arith

  created_of_none : (d : Cached A) (k : String) → get d k ≡ none → created d k ≡ 0
  unfolding created
  created_of_none d k q = ground arith

  read_entry-some :
      (k : String) (now : ℕ) (d : Cached A) (e : CacheEntry A)
      → get d k ≡ some e
      → is_expired e now ≡ false
      → (read_entry k now d).1 ≡ some e.items
  unfolding read_entry
  read_entry-some k now d e q f = ground arith

  module _ (max_entries : ℕ) (d : Cached A) (now : ℕ) (c : IsCache max_entries d now) where
    -- The cache once the expired entries are gone.
    pruned : Cached A
    pruned = prune max_entries d now

    module _ (k : String) (items : A) (ttl_s : ℕ) where
      entry : CacheEntry A
      entry = record { items = items; created_at = now; ttl_s = ttl_s }

      written : Cached A
      unfolding pruned entry
      written = put pruned k entry

      written-Distinct : Distinct written
      unfolding written
      written-Distinct = put-Distinct _ k _ (prune-Distinct max_entries d now c.distinct)

      get-written : (j : String) → get written j ≡ (if k == j then some entry else get pruned j)
      unfolding written
      get-written j = get-put pruned k j entry

      written_cases :
          (j : String) (e : CacheEntry A)
          → get written j ≡ some e
          → (e ≡ entry) ⊎ ((get d j ≡ some e) × (is_expired e now ≡ false))
      unfolding pruned
      written_cases j e q = elim (Bool-cases (k == j)) [
        | inl s ↦ inl (ground (arith, get-written j))
        | inr n ↦ inr (get-prune max_entries d now c.distinct j e (ground (arith, get-written j)))
      ]

      written_fresh :
          0 < ttl_s
          → (j : String) (e : CacheEntry A) → get written j ≡ some e
          → is_expired e now ≡ false
      unfolding is_expired entry
      written_fresh alive j e q = elim (written_cases j e q) [
        | inl same ↦ ground arith
        | inr (_, f) ↦ f
      ]

      created_le : (j : String) → created written j ≤ now
      unfolding entry
      created_le j = elim (Option-cases (get written j)) [
        | inl e ↦ omega (arith, created_of_none written j e)
        | inr (w, e) ↦ elim (written_cases j w e) [
          | inl same ↦
              omega (arith, created_of written j w e, ap (λ (x : CacheEntry A). x.created_at) same)
          | inr (f, _) ↦ omega (arith, created_of written j w e, c.earlier j w f)
        ]
      ]

      get-written_self : get written k ≡ some entry
      get-written_self = ground (arith, get-written k, eq_iff k k)

      kept_if_new :
          0 < max_entries
          → has pruned k ≡ false
          → contains (oldest_keys written (length written - max_entries)) k ≡ false
      unfolding oldest_keys written pruned entry
      kept_if_new room absent =
          rw
            (
              keys_written,
              sort_desc-append_last (younger written) k (keys pruned) not_younger,
              take_of_append _ (sort_desc (younger written) (keys pruned)) (k ∷ []) fits,
            )
            (not-contains_of_All k _ (
              All-take _ _ _ (
                All-sort_desc (younger written) _ (keys pruned)
                  (All-not-contains k (keys pruned) (contains-keys pruned k ∙ absent)))))
        where
          keys_written : keys written ≡ keys pruned ++ k ∷ []
          keys_written =
              ap keys (put_of_not-has pruned k entry absent)
              ∙ keys-append pruned ((k, entry) ∷ [])
              ∙ (unfold keys in refl)

          not_younger : All (λ j. younger written j k ≡ false) (keys pruned)
          not_younger =
              All-of _ (keys pruned)
                (λ j m. ground (arith, created_of written k entry get-written_self, created_le j))

          fits : length written - max_entries ≤ length (sort_desc (younger written) (keys pruned))
          fits = omega (
            arith,
            length-put-le pruned k entry,
            length-prune-le max_entries d now c.distinct,
            length-sort_desc (younger written) (keys pruned),
            length-keys pruned,
          )

      kept :
          0 < max_entries → contains (oldest_keys written (length written - max_entries)) k ≡ false
      kept room = elim (Bool-cases (has pruned k)) [
        | inl here ↦
            unfold written pruned oldest_keys in
            (let none_over : length written - max_entries ≡ 0 = omega (
              arith,
              length-put-has pruned k entry here,
              length-prune-le max_entries d now c.distinct,
            ) in
              rw none_over refl)
        | inr absent ↦ kept_if_new room absent
      ]

      -- The entry that was just written is there when the cache has been pruned again.
      get-set_local_cache :
          0 < max_entries
          → 0 < ttl_s
          → get (set_local_cache max_entries d k items ttl_s now) k ≡ some entry
      unfolding set_local_cache prune pop_all written pruned entry
      get-set_local_cache room alive =
          rw (expired_keys_of_fresh written now written-Distinct (written_fresh alive)) (
            get-pop_all written (oldest_keys written (length written - max_entries)) k
              written-Distinct
            ∙ rw (kept room) get-written_self)

      -- Storing in a well-formed cache leaves a well-formed one: its keys are distinct, it has at most
      -- `max_entries` entries, and none was made later than now.
      pub set_local_cache-IsCache :
          IsCache max_entries (set_local_cache max_entries d k items ttl_s now) now
      unfolding set_local_cache written pruned entry
      set_local_cache-IsCache = record {
        distinct = prune-Distinct max_entries written now written-Distinct;
        bounded = length-prune-le max_entries written now written-Distinct;
        earlier = λ j e q.
            early j e
              (written_cases j e (get-prune max_entries written now written-Distinct j e q).0);
      }
        where
          early :
              (j : String) (e : CacheEntry A)
              → ((e ≡ entry) ⊎ ((get d j ≡ some e) × (is_expired e now ≡ false)))
              → e.created_at ≤ now
          early j e (inl same) = omega (arith, ap (λ (x : CacheEntry A). x.created_at) same)
          early j e (inr (q, _)) = c.earlier j e q

      -- What is stored in a well-formed cache that has room for an entry is what a lookup of its key
      -- returns at every time before its lifetime is over, however full the cache was.
      pub get-set_local_cache_self :
          0 < max_entries
          → 0 < ttl_s
          → (later : ℕ) → later < now + ttl_s
          → (get_local_cache max_entries
              (set_local_cache max_entries d k items ttl_s now)
              k
              later).1
            ≡ some items
      unfolding get_local_cache is_expired entry
      get-set_local_cache_self room alive later soon =
          read_entry-some k later
            (prune max_entries (set_local_cache max_entries d k items ttl_s now) later) entry
            found_later (ground arith)
        where
          stored : Cached A
          stored = set_local_cache max_entries d k items ttl_s now

          found_later : get (prune max_entries stored later) k ≡ some entry
          found_later =
              ap (λ x. get x k)
                (prune_of_length-le max_entries stored later set_local_cache-IsCache.distinct
                  set_local_cache-IsCache.bounded)
              ∙ (get-live stored later k entry set_local_cache-IsCache.distinct).1
                  (get-set_local_cache room alive, ground arith)
