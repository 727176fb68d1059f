-- ===== src/Jit/Rounds.antt =====
-- Resolving a reference, and resolving it again.
use context_agent.Prelude.{
  ℕ, ◌+◌, ◌<◌, String, text_append, ◌≡◌, refl, ap, ◌∙◌, Option, none, some, false, List, [], ◌∷◌,
  arith,
}
use context_agent.Prelude.Floats.{Floats}
use context_agent.Models.Context.{ContextItem}
use context_agent.Models.Ref
use context_agent.Models.Ref.{ContextRef}
use context_agent.Jit.Looking.{IsCache}
use context_agent.Jit.Cached.{get-set_local_cache_self}
use context_agent.Jit.Resolver.{
  answered, Readings, Backends, JitResolver, get_local, set_local, get_cache, set_cache, dispatch,
  remember, resolve, store_tool_result, resolve_tool_result, tool_key, effective_ttl,
  first_of_cached,
}

module _ {F R : Type 0} (o : Floats F) (b : Backends F R) where
  -- A resolver that keeps its cache in process, in good order at time `now`.
  pub record IsLocal (s : JitResolver F R) (now : ℕ) : Type 0 where
    pub no_redis : s.redis ≡ none
    pub cache : IsCache s.jit_cache_local_max_entries s.local_cache now
    pub room : 0 < s.jit_cache_local_max_entries

  effective_ttl_pos :
      (ttl_s : Option ℕ) (default : ℕ) → 0 < default → 0 < effective_ttl o b ttl_s default
  unfolding effective_ttl
  effective_ttl_pos none default h = h
  effective_ttl_pos (some t) default h = ground arith

  set_local-redis :
      (s : JitResolver F R) (key : String) (items : List (ContextItem F)) (ttl_s now : ℕ)
      → (set_local o b s key items ttl_s now).redis ≡ s.redis
  unfolding set_local
  set_local-redis s key items ttl_s now = refl

  get_cache_local :
      (b' : Backends F R) (s : JitResolver F R) (ref_id : String) (now : ℕ)
      → s.redis ≡ none
      → get_cache o b' s ref_id now ≡ get_local o b s (text_append "ca:jit:" ref_id) now
  unfolding get_cache get_local
  get_cache_local b' s ref_id now h = ground arith

  set_cache_local :
      (s : JitResolver F R) (ref_id : String) (items : List (ContextItem F)) (now : ℕ)
      → s.redis ≡ none
      → set_cache o b s ref_id items now
        ≡ set_local o b s (text_append "ca:jit:" ref_id) items s.jit_cache_ttl_s now
  unfolding set_cache
  set_cache_local s ref_id items now h = ground arith

  store_tool_result_local :
      (s : JitResolver F R) (scope_id cache_key : String) (item : ContextItem F) (ttl_s : Option ℕ)
      (now : ℕ)
      → s.redis ≡ none
      → store_tool_result o b s scope_id cache_key item ttl_s now
        ≡ set_local o b s
            (tool_key o b scope_id cache_key)
            (item ∷ [])
            (effective_ttl o b ttl_s s.jit_cache_ttl_s)
            now
  unfolding store_tool_result
  store_tool_result_local s scope_id cache_key item ttl_s now h = ground arith

  resolve_tool_result_local :
      (s : JitResolver F R) (cache_key scope_id : String) (now : ℕ)
      → s.redis ≡ none
      → (resolve_tool_result o b s cache_key scope_id now).1
        ≡ first_of_cached o b (get_local o b s (tool_key o b scope_id cache_key) now).1
  unfolding resolve_tool_result
  resolve_tool_result_local s cache_key scope_id now h = ground arith

  local_round :
      (s : JitResolver F R) (key : String) (items : List (ContextItem F)) (ttl_s now later : ℕ)
      → IsLocal s now
      → 0 < ttl_s
      → later < now + ttl_s
      → (get_local o b (set_local o b s key items ttl_s now) key later).1 ≡ some items
  unfolding get_local set_local
  local_round s key items ttl_s now later l alive soon =
      get-set_local_cache_self s.jit_cache_local_max_entries s.local_cache now l.cache key items
        ttl_s l.room alive later soon

  -- In process, a tool result that has been stored under a key is what resolving that key returns,
  -- at every time before its lifetime is over; a lifetime of `None` or 0 is the configured one, which
  -- is positive. The cache is well formed and has room for an entry.
  pub resolve-store_tool_result :
      (s : JitResolver F R) (scope_id cache_key : String) (item : ContextItem F) (ttl_s : Option ℕ)
      (now later : ℕ)
      → IsLocal s now
      → 0 < s.jit_cache_ttl_s
      → later < now + effective_ttl o b ttl_s s.jit_cache_ttl_s
      → (resolve_tool_result o b
          (store_tool_result o b s scope_id cache_key item ttl_s now)
          cache_key
          scope_id
          later).1
        ≡ item ∷ []
  unfolding first_of_cached
  resolve-store_tool_result s scope_id cache_key item ttl_s now later l alive soon =
      rw (store_tool_result_local s scope_id cache_key item ttl_s now (l.no_redis)) (
        resolve_tool_result_local
          (set_local o b s (tool_key o b scope_id cache_key) (item ∷ [])
            (effective_ttl o b ttl_s s.jit_cache_ttl_s) now)
          cache_key scope_id later (set_local-redis s _ _ _ _ ∙ l.no_redis)
        ∙ ap (first_of_cached o b) (
            local_round s (tool_key o b scope_id cache_key) (item ∷ [])
              (effective_ttl o b ttl_s s.jit_cache_ttl_s) now later l
              (effective_ttl_pos ttl_s s.jit_cache_ttl_s alive) soon))

  cache_round :
      (b' : Backends F R) (s : JitResolver F R) (ref_id : String) (items : List (ContextItem F))
      (now later : ℕ)
      → IsLocal s now
      → 0 < s.jit_cache_ttl_s
      → later < now + s.jit_cache_ttl_s
      → (get_cache o b' (set_cache o b s ref_id items now) ref_id later).1 ≡ some items
  cache_round b' s ref_id items now later l alive soon =
      rw (set_cache_local s ref_id items now (l.no_redis)) (
        ap (λ x. x.1)
          (get_cache_local b'
            (set_local o b s (text_append "ca:jit:" ref_id) items s.jit_cache_ttl_s now) ref_id
            later (set_local-redis s _ _ _ _ ∙ l.no_redis))
        ∙ local_round s (text_append "ca:jit:" ref_id) items s.jit_cache_ttl_s now later l alive
            soon)

  first_round :
      (s : JitResolver F R) (ref : ContextRef) (top_k : ℕ) (t : Readings) (s1 s2 : JitResolver F R)
      (items : List (ContextItem F))
      → Ref.is_expired ref t.today ≡ false
      → get_cache o b s ref.ref_id t.read_at ≡ (s1, none)
      → dispatch o b s1 ref top_k t ≡ (s2, answered items)
      → resolve o b s ref top_k t ≡ (set_cache o b s2 ref.ref_id items t.write_at, answered items)
  unfolding resolve remember
  first_round s ref top_k t s1 s2 items fresh miss dispatched =
      rw (fresh, miss, miss, dispatched) refl

  hit_round :
      (b' : Backends F R) (s : JitResolver F R) (ref : ContextRef) (top_k : ℕ) (t : Readings)
      (items : List (ContextItem F))
      → Ref.is_expired ref t.today ≡ false
      → (get_cache o b' s ref.ref_id t.read_at).1 ≡ some items
      → (resolve o b' s ref top_k t).1 ≡ answered items
  unfolding resolve
  hit_round b' s ref top_k t items fresh hit = rw (fresh, hit) refl

  -- When an in-process resolver has missed its cache and its dispatch has answered, resolving the same
  -- reference again before the lifetime is over returns the same items, whatever the retriever and the
  -- working memory would answer by then, and whatever number of items is asked for. The reference has
  -- not expired at either time, the configured lifetime is positive, and the cache into which the
  -- items go is well formed and has room for an entry.
  pub resolve-resolve :
      (b' : Backends F R) (s : JitResolver F R) (ref : ContextRef) (top_k top_k' : ℕ)
      (t t' : Readings) (s1 s2 : JitResolver F R) (items : List (ContextItem F))
      → Ref.is_expired ref t.today ≡ false
      → Ref.is_expired ref t'.today ≡ false
      → get_cache o b s ref.ref_id t.read_at ≡ (s1, none)
      → dispatch o b s1 ref top_k t ≡ (s2, answered items)
      → IsLocal s2 t.write_at
      → 0 < s2.jit_cache_ttl_s
      → t'.read_at < t.write_at + s2.jit_cache_ttl_s
      → ((resolve o b s ref top_k t).1 ≡ answered items)
        × ((resolve o b' (resolve o b s ref top_k t).0 ref top_k' t').1 ≡ answered items)
  resolve-resolve b' s ref top_k top_k' t t' s1 s2 items fresh fresh' miss dispatched l alive soon =
      rw (first_round s ref top_k t s1 s2 items fresh miss dispatched) (refl, rw (hit) refl)
    where
      hit :
          (resolve o b' (set_cache o b s2 ref.ref_id items t.write_at) ref top_k' t').1
          ≡ answered items
      hit =
          hit_round b' (set_cache o b s2 ref.ref_id items t.write_at) ref top_k' t' items fresh'
            (cache_round b' s2 ref.ref_id items t.write_at t'.read_at l alive soon)
