-- ===== src/Tiers/Hot.antt =====
-- The hot tier: Redis, or a dict in the process. What a command of Redis comes to, and the reading and
-- writing of the cached JSON, are parameters. Times are whole ticks of the monotonic clock.
use context_agent.Prelude.{
  ℕ, ◌+◌, String, ◌==◌, Option, none, some, Bool, false, List, [], ◌∷◌, keep, is_nil, take, ltb,
  eqb, contains, any, text_append, if◌then◌else◌,
}
use context_agent.Prelude.Dict.{Dict, get, put, remove}
use context_agent.Models.Context.{ContextItem, variable, same_memory_type}

-- A call of another program: an answer, a missed deadline, an exception that is caught, or one that
-- is not.
pub data Reply (A : Type 0) : Type 0 where
  answer : A → Reply A
  timed_out caught uncaught : Reply A

pub record Cache (F R : Type 0) : Type 0 where
  pub redis_get : R → String → Reply (Option String)
  -- the state afterwards, and whether it has raised
  pub redis_setex : R → String → ℕ → String → R × Bool
  -- `json.loads`, and `ContextItem(**entry)` for each entry: `none` where it is no list of items
  pub loads : String → Option (List (ContextItem F))
  pub dumps : List (ContextItem F) → String

pub record TieredMemoryRouter (F R : Type 0) : Type 0 where
  pub redis : Option R
  pub local_cache : Dict (List (ContextItem F) × ℕ)
  pub hot_tier_ttl_s : ℕ
  pub default_top_k : ℕ

-- `item.memory_type in _HOT_TIER_MEMORY_TYPES`
unfoldable pub is_hot : {F : Type 0} → ContextItem F → Bool
is_hot item = elim item.memory_type [ none ↦ false | some t ↦ same_memory_type t variable ]

unfoldable pub hot_key : String → String
hot_key scope_id = text_append "ca:hot:" scope_id

-- `_validate_local_hot_items`, and the last test of `_validate_hot_cache_payload`, for a list of items
unfoldable pub validate_hot : {F : Type 0} → List (ContextItem F) → Option (List (ContextItem F))
unfolding is_hot
validate_hot [] = some []
validate_hot (i ∷ items) =
    let rest = validate_hot items in
    if is_hot i then elim rest [ none ↦ none | some valid ↦ some (i ∷ valid) ] else none

module _ {F R : Type 0} (c : Cache F R) where
  -- The payload of Redis, read and validated; an empty text is no payload.
  unfoldable pub read_payload : Option String → Option (List (ContextItem F))
  unfolding validate_hot
  read_payload none = none
  read_payload (some raw) =
      if raw == ""
      then none
      else elim (c.loads raw) [ none ↦ none | some items ↦ validate_hot items ]

  unfoldable pub first_items : ℕ → Option (List (ContextItem F)) → List (ContextItem F)
  first_items top_k none = []
  first_items top_k (some items) = take top_k items

  unfoldable pub from_redis : Reply (Option String) → ℕ → Option (List (ContextItem F))
  unfolding read_payload first_items
  from_redis (answer raw) top_k = some (first_items top_k (read_payload raw))
  from_redis timed_out top_k = some []
  from_redis caught top_k = some []
  from_redis uncaught top_k = none

  -- An entry that is not of the hot types is dropped from the cache.
  unfoldable pub local_hot :
      TieredMemoryRouter F R
      → String
      → ℕ
      → ℕ
      → Option (List (ContextItem F) × ℕ)
      → TieredMemoryRouter F R × List (ContextItem F)
  unfolding validate_hot
  local_hot s key top_k now none = (s, [])
  local_hot s key top_k now (some (items, ts)) =
      if ltb now (ts + s.hot_tier_ttl_s)
      then elim (validate_hot items) [
        | none ↦ (record s { local_cache = remove s.local_cache key }, [])
        | some valid ↦ (s, take top_k valid)
      ]
      else (s, [])

  -- With a client, and without.
  unfoldable pub hot_with :
      Option R
      → TieredMemoryRouter F R
      → String
      → ℕ
      → ℕ
      → TieredMemoryRouter F R × Option (List (ContextItem F))
  unfolding from_redis local_hot
  hot_with (some r) s key top_k now = (s, from_redis (c.redis_get r key) top_k)
  hot_with none s key top_k now =
      let (s', items) = local_hot s key top_k now (get s.local_cache key) in (s', some items)

  -- `none` where an exception is not caught. The query plays no part.
  unfoldable pub hot_search :
      TieredMemoryRouter F R
      → String
      → ℕ
      → ℕ
      → TieredMemoryRouter F R × Option (List (ContextItem F))
  unfolding hot_with hot_key
  hot_search s scope_id top_k now = hot_with s.redis s (hot_key scope_id) top_k now

  -- `ttl_s or hot_tier_ttl_s`
  effective_ttl : Option ℕ → ℕ → ℕ
  effective_ttl none default = default
  effective_ttl (some t) default = if eqb t 0 then default else t

  -- An exception of Redis is caught.
  unfoldable pub set_redis : TieredMemoryRouter F R → R × Bool → TieredMemoryRouter F R
  set_redis s (r, done) = record s { redis = some r }

  unfoldable pub warm_cache :
      TieredMemoryRouter F R → String → List (ContextItem F) → Option ℕ → ℕ → TieredMemoryRouter F R
  unfolding effective_ttl set_redis
  warm_cache s scope_id items ttl_s now =
      let hot_items = keep is_hot items in
      if is_nil hot_items then s else elim s.redis [
        | some r ↦ set_redis s (
            c.redis_setex r (hot_key scope_id) (effective_ttl ttl_s s.hot_tier_ttl_s)
              (c.dumps hot_items))
        | none ↦ record s { local_cache = put s.local_cache (hot_key scope_id) (hot_items, now) }
      ]

  -- The loop of `record_usage`.
  unfoldable pub count_used : List String → List (ContextItem F) → List (ContextItem F)
  count_used item_ids [] = []
  count_used item_ids (i ∷ items) =
      (if contains item_ids i.item_id then record i { active_count = i.active_count + 1 } else i)
      ∷ count_used item_ids items

  -- The items are written back where one of them was used.
  used_payload :
      TieredMemoryRouter F R
      → R
      → String
      → List String
      → Option (List (ContextItem F))
      → TieredMemoryRouter F R
  unfolding count_used set_redis
  used_payload s r key item_ids none = s
  used_payload s r key item_ids (some items) =
      if any (λ (i : ContextItem F). contains item_ids i.item_id) items
      then set_redis s (c.redis_setex r key s.hot_tier_ttl_s (c.dumps (count_used item_ids items)))
      else s

  used_redis :
      TieredMemoryRouter F R
      → R
      → String
      → List String
      → Reply (Option String)
      → TieredMemoryRouter F R
  unfolding used_payload read_payload
  used_redis s r key item_ids (answer raw) = used_payload s r key item_ids (read_payload raw)
  used_redis s r key item_ids _ = s

  used_local :
      TieredMemoryRouter F R
      → String
      → List String
      → Option (List (ContextItem F) × ℕ)
      → TieredMemoryRouter F R
  unfolding count_used validate_hot
  used_local s key item_ids none = s
  used_local s key item_ids (some (items, ts)) = elim (validate_hot items) [
    | none ↦ record s { local_cache = remove s.local_cache key }
    | some valid ↦ record s { local_cache = put s.local_cache key (count_used item_ids items, ts) }
  ]

  -- The state after `record_usage`, whether it returns or raises.
  unfoldable pub record_usage :
      TieredMemoryRouter F R → String → List String → TieredMemoryRouter F R
  unfolding used_redis used_local
  record_usage s scope_id item_ids = if is_nil item_ids then s else elim s.redis [
    | some r ↦ used_redis s r (hot_key scope_id) item_ids (c.redis_get r (hot_key scope_id))
    | none ↦ used_local s (hot_key scope_id) item_ids (get s.local_cache (hot_key scope_id))
  ]
