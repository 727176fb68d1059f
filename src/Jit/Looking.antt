-- ===== src/Jit/Looking.antt =====
-- What a well-formed cache is, and looking a key up in one.
use context_agent.Prelude.{
  ℕ, ◌+◌, ◌≤◌, ◌<◌, String, ◌≡◌, ◌↔◌, refl, sym, ap, ◌∙◌, Option, none, some, Option-cases, inl,
  inr, false, arith, length, if_ind, eq_of_some,
}
use context_agent.Prelude.Dict.{
  get, remove, get-remove, remove-Distinct, length-remove-le, Distinct,
}
use context_agent.Jit.Cache.{CacheEntry, is_expired, prune, read_entry, get_local_cache}
use context_agent.Jit.Pruning.{
  Cached, get-live, prune_of_length-le, get-prune, length-prune-le, prune-Distinct,
}

-- A cache that the resolver can have at time `now`: its keys are distinct, it is within its bound,
-- and its entries were made before.
pub record IsCache {A : Type 0} (max_entries : ℕ) (d : Cached A) (now : ℕ) : Type 0 where
  pub distinct : Distinct d
  pub bounded : length d ≤ max_entries
  pub earlier : (k : String) (e : CacheEntry A) → get d k ≡ some e → e.created_at ≤ now

module _ {A : Type 0} where
  pub get_local_cache-IsCache :
      (max_entries : ℕ) (d : Cached A) (k : String) (now later : ℕ)
      → IsCache max_entries d now
      → now ≤ later
      → IsCache max_entries (get_local_cache max_entries d k later).0 later
  unfolding get_local_cache read_entry
  get_local_cache-IsCache max_entries d k now later c h =
      by_found (get (prune max_entries d later) k) refl
    where
      pruned_IsCache : IsCache max_entries (prune max_entries d later) later
      pruned_IsCache = record {
        distinct = prune-Distinct max_entries d later c.distinct;
        bounded = length-prune-le max_entries d later c.distinct;
        earlier = λ j e q.
            omega (arith, c.earlier j e (get-prune max_entries d later c.distinct j e q).0);
      }

      removed_IsCache : IsCache max_entries (remove (prune max_entries d later) k) later
      removed_IsCache = record {
        distinct = remove-Distinct _ k pruned_IsCache.distinct;
        bounded =
            omega (arith, length-remove-le (prune max_entries d later) k, pruned_IsCache.bounded);
        earlier = λ j e q.
            pruned_IsCache.earlier j e
              (ground (arith, get-remove (prune max_entries d later) k j pruned_IsCache.distinct));
      }

      by_found :
          (o : Option (CacheEntry A))
          → get (prune max_entries d later) k ≡ o
          → IsCache max_entries (read_entry k later (prune max_entries d later)).0 later
      by_found none e = rw (e, read_entry) pruned_IsCache
      by_found (some w) e =
          rw (e, read_entry)
            (if_ind (λ (x : Cached A × Option A). IsCache max_entries x.0 later)
              (is_expired w later) _ _ (λ _. removed_IsCache) (λ _. pruned_IsCache))

  -- The entry of a key is there, and its lifetime is not over.
  abbrev pub Lives : Cached A → String → ℕ → CacheEntry A → Type 0
  Lives d k now e = (get d k ≡ some e) × (now < e.created_at + e.ttl_s)

  module _ (max_entries : ℕ) (d : Cached A) (now later : ℕ) (c : IsCache max_entries d now) where
    get-prune_iff :
        (j : String) (e : CacheEntry A)
        → (get (prune max_entries d later) j ≡ some e) ↔ Lives d j later e
    unfolding is_expired
    get-prune_iff j e = rw (prune_of_length-le max_entries d later c.distinct c.bounded) (
      λ q.
          let (found, young) = (get-live d later j e c.distinct).0 q in
          (found, ground (arith, young)),
      λ (found, young). (get-live d later j e c.distinct).1 (found, ground (arith, young)),
    )

    -- Pruning leaves nothing that the lookup itself would drop.
    read_pruned :
        (k : String) (e : CacheEntry A)
        → get (prune max_entries d later) k ≡ some e
        → get_local_cache max_entries d k later ≡ (prune max_entries d later, some e.items)
    unfolding get_local_cache read_entry
    read_pruned k e q =
        let young : is_expired e later ≡ false =
          (get-prune max_entries d later c.distinct k e q).1 in
        rw (q, read_entry) (rw young refl)

    read_missing :
        (k : String)
        → get (prune max_entries d later) k ≡ none
        → get_local_cache max_entries d k later ≡ (prune max_entries d later, none)
    unfolding get_local_cache read_entry
    read_missing k q = rw (q, read_entry) refl

    after_lookup :
        (k : String) → (get_local_cache max_entries d k later).0 ≡ prune max_entries d later
    after_lookup k = elim (Option-cases (get (prune max_entries d later) k)) [
      | inl q ↦ ap (λ x. x.0) (read_missing k q)
      | inr (e, q) ↦ ap (λ x. x.0) (read_pruned k e q)
    ]

    looked_up :
        (k : String) (items : A)
        → ((get_local_cache max_entries d k later).1 ≡ some items)
          ↔ ((e : CacheEntry A) × Lives d k later e × (e.items ≡ items))
    looked_up k items = (there, back)
      where
        there :
            (get_local_cache max_entries d k later).1 ≡ some items
            → (e : CacheEntry A) × Lives d k later e × (e.items ≡ items)
        there h = elim (Option-cases (get (prune max_entries d later) k)) [
          | inl q ↦ cc (h, ap (λ x. x.1) (read_missing k q))
          | inr (e, q) ↦
              (e, (get-prune_iff k e).0 q, eq_of_some (sym (ap (λ x. x.1) (read_pruned k e q)) ∙ h))
        ]

        back :
            (e : CacheEntry A) × Lives d k later e × (e.items ≡ items)
            → (get_local_cache max_entries d k later).1 ≡ some items
        back (e, l, s) = ap (λ x. x.1) (read_pruned k e ((get-prune_iff k e).1 l)) ∙ ap some s

    -- A lookup in a well-formed cache, at a later time, finds exactly the items of an entry of its key
    -- whose lifetime is not over; afterwards the entries are exactly those whose lifetimes are not
    -- over, in a well-formed cache.
    pub get_local_cache_exact :
        (k : String)
        → now ≤ later
        → ((items : A)
            → ((get_local_cache max_entries d k later).1 ≡ some items)
              ↔ ((e : CacheEntry A) × Lives d k later e × (e.items ≡ items)))
          × ((j : String) (e : CacheEntry A)
              → (get (get_local_cache max_entries d k later).0 j ≡ some e) ↔ Lives d j later e)
          × IsCache max_entries (get_local_cache max_entries d k later).0 later
    get_local_cache_exact k h = (
      looked_up k,
      λ j e. rw (after_lookup k) (get-prune_iff j e),
      get_local_cache-IsCache max_entries d k now later c h,
    )
