-- ===== src/Examples/Caching.antt =====
-- The cache of the resolver, and the resolver on it.
use context_agent.Prelude.{
  ℕ, ◌+◌, ◌<◌, ◌≤◌, ◌↔◌, refl, String, ◌≡◌, none, some, false, List, [], ◌∷◌, arith,
}
use context_agent.Prelude.Dict.{Dict, get, keys}
use context_agent.Prelude.Sort.{sort_desc}
use context_agent.Models.Context.{ContextItem}
use context_agent.Models.Ref
use context_agent.Models.Ref.{ContextRef, memory}
use context_agent.Jit.Cache.{
  CacheEntry, read_entry, prune, expired_keys, pop_all, oldest_keys, get_local_cache,
  set_local_cache,
}
use context_agent.Jit.Looking.{IsCache, Lives, get_local_cache_exact}
use context_agent.Jit.Cached.{set_local_cache-IsCache, get-set_local_cache_self}
use context_agent.Jit.Resolver.{
  answered, raised, Readings, Backends, JitResolver, get_cache, dispatch, resolve, get_local,
  effective_ttl, store_tool_result, resolve_tool_result,
}
use context_agent.Jit.Rounds.{IsLocal, resolve-store_tool_result, resolve-resolve}
use context_agent.Examples.Data.{cents, note_item, tool_item, three_items}

-- A full cache of one entry, made at time 10.
abbrev full_cache : Dict (CacheEntry (List (ContextItem ℕ)))
full_cache = ("ca:jit:r0", record { items = note_item ∷ []; created_at = 10; ttl_s = 60 }) ∷ []

full_cache-IsCache : IsCache 1 full_cache 12
unfolding get
full_cache-IsCache = record {
  distinct = (tt, tt);
  bounded = omega arith;
  earlier = λ k e q. ground arith;
}

set_local_cache-IsCache_example :
    IsCache 1 (set_local_cache 1 full_cache "ca:jit:r1" three_items 60 12) 12
set_local_cache-IsCache_example =
    set_local_cache-IsCache 1 full_cache 12 full_cache-IsCache "ca:jit:r1" three_items 60

get_local_cache_exact_example :
    ((items : List (ContextItem ℕ))
      → ((get_local_cache 1 full_cache "ca:jit:r0" 80).1 ≡ some items) ↔ (
          (e : CacheEntry (List (ContextItem ℕ))) × Lives full_cache "ca:jit:r0" 80 e
          × (e.items ≡ items)))
    × ((j : String) (e : CacheEntry (List (ContextItem ℕ)))
        → (get (get_local_cache 1 full_cache "ca:jit:r0" 80).0 j ≡ some e)
          ↔ Lives full_cache j 80 e)
    × IsCache 1 (get_local_cache 1 full_cache "ca:jit:r0" 80).0 80
get_local_cache_exact_example =
    get_local_cache_exact 1 full_cache 12 80 full_cache-IsCache "ca:jit:r0" (omega arith)

get-set_local_cache_self_example :
    (get_local_cache 1
      (set_local_cache 1 full_cache "ca:jit:r1" three_items 60 12)
      "ca:jit:r1"
      71).1
    ≡ some three_items
get-set_local_cache_self_example =
    get-set_local_cache_self 1 full_cache 12 full_cache-IsCache "ca:jit:r1" three_items 60
      (omega arith) (omega arith) 71 (omega arith)

-- A retriever that finds one item, and no working memory.
abbrev backends : Backends ℕ String
backends = record {
  agentic_search = λ scope_id query task top_k. answered (tool_item ∷ []);
  graph_search = λ scope_id query. raised;
  get_note = none;
  redis_list = λ r key. none;
  redis_item = λ r key. none;
  redis_setex = λ r key ttl_s items. r;
  redis_setex_item = λ r key ttl_s item. r;
}

-- A retriever that fails.
abbrev failing : Backends ℕ String
failing = record backends { agentic_search = λ scope_id query task top_k. raised }

abbrev resolver : JitResolver ℕ String
resolver = record {
  redis = none;
  local_cache = [];
  jit_cache_ttl_s = 60;
  jit_cache_local_max_entries = 2;
}

resolver-IsLocal : (now : ℕ) → IsLocal cents backends resolver now
unfolding get
resolver-IsLocal now = record {
  no_redis = refl;
  cache = record { distinct = tt; bounded = omega arith; earlier = λ k e q. cc };
  room = omega arith;
}

abbrev memory_ref : ContextRef
memory_ref = record {
  ref_id = "r1";
  ref_type = memory;
  scope_id = "team";
  locator = "notes";
  description = "";
  resolved = false;
  expires_at = some 1000;
  metadata = [];
  created_at = 0;
}

abbrev at_first : Readings
at_first = record { today = 10; read_at = 20; tool_at = 20; write_at = 21; new_id = "i1" }

abbrev later_on : Readings
later_on = record { today = 11; read_at = 70; tool_at = 70; write_at = 71; new_id = "i2" }

not_expired : (t : Readings) → t.today ≤ 1000 → Ref.is_expired memory_ref t.today ≡ false
unfolding Ref.is_expired
not_expired t h = ground arith

first_miss : get_cache cents backends resolver "r1" 20 ≡ (resolver, none)
unfolding get_cache get_local get_local_cache read_entry prune expired_keys pop_all oldest_keys keys
    sort_desc get
first_miss = refl

first_dispatch :
    dispatch cents backends resolver memory_ref 5 at_first ≡ (resolver, answered (tool_item ∷ []))
unfolding dispatch
first_dispatch = refl

resolve-resolve_example :
    ((resolve cents backends resolver memory_ref 5 at_first).1 ≡ answered (tool_item ∷ []))
    × ((resolve cents failing
          (resolve cents backends resolver memory_ref 5 at_first).0
          memory_ref
          9
          later_on).1
        ≡ answered (tool_item ∷ []))
resolve-resolve_example =
    resolve-resolve cents backends failing resolver memory_ref 5 9 at_first later_on resolver
      resolver (tool_item ∷ []) (not_expired at_first (omega arith))
      (not_expired later_on (omega arith)) first_miss first_dispatch (resolver-IsLocal 21)
      (omega arith) (omega arith)

resolve-store_tool_result_example :
    (resolve_tool_result cents backends
      (store_tool_result cents backends resolver "team" "job" tool_item (some 0) 30)
      "job"
      "team"
      89).1
    ≡ tool_item ∷ []
unfolding effective_ttl
resolve-store_tool_result_example =
    resolve-store_tool_result cents backends resolver "team" "job" tool_item (some 0) 30 89
      (resolver-IsLocal 30) (omega arith) within
  where
    within : 89 < 30 + effective_ttl cents backends (some 0) 60
    within = omega arith
