-- ===== src/Tiers/Tiered.antt =====
-- Where the items of a search come from.
use context_agent.Prelude.{
  ℕ, ◌+◌, ◌≡◌, ◌≢◌, refl, ◌⊎◌, inl, inr, String, Option, none, some, true, List, [], ◌∷◌, take, ltb,
  In, All, All→, All-take, All-of, if_ind, ◌==◌,
}
use context_agent.Prelude.Dict.{get, remove}
use context_agent.Prelude.Floats.{Floats}
use context_agent.Models.Values.{Metadata}
use context_agent.Models.Context.{MemoryType, ContextItem}
use context_agent.Tiers.Hot.{
  Reply, answer, timed_out, caught, uncaught, Cache, TieredMemoryRouter, is_hot, hot_key,
  validate_hot, read_payload, first_items, from_redis, local_hot, hot_with, hot_search,
}
use context_agent.Tiers.Router.{Latencies, Stores, asks_hot, effective_top_k, search}
use context_agent.Tiers.Passed.{
  AreTiered, AllTiered, IsCalm, after_hot-AreTiered, warm_tier-AreTiered,
}

module _ {F : Type 0} where
  IsHot : ContextItem F → Type 0
  IsHot i = is_hot i ≡ true

  -- The same of a list that may be missing.
  abbrev AllHot : Option (List (ContextItem F)) → Type 0
  AllHot none = Unit
  AllHot (some result) = All IsHot result

  one_more :
      (i : ContextItem F) (rest : Option (List (ContextItem F)))
      → is_hot i ≡ true
      → AllHot rest
      → AllHot (elim rest [ none ↦ none | some valid ↦ some (i ∷ valid) ])
  unfolding IsHot
  one_more i none q h = tt
  one_more i (some valid) q h = (q, h)

  validate_hot-All : (items : List (ContextItem F)) → AllHot (validate_hot items)
  unfolding validate_hot
  validate_hot-All [] = tt
  validate_hot-All (i ∷ items) =
      if_ind AllHot (is_hot i) _ none
        (λ q. one_more i (validate_hot items) q (validate_hot-All items)) (λ _. tt)

module _ {F R : Type 0} (o : Floats F) (c : Cache F R) (b : Stores F) where
  first_items-All :
      (k : ℕ) (items : Option (List (ContextItem F)))
      → AllHot items
      → All IsHot (first_items c k items)
  unfolding first_items
  first_items-All k none t = tt
  first_items-All k (some items) t = All-take IsHot k items t

  read_payload-All : (raw : Option String) → AllHot (read_payload c raw)
  unfolding read_payload
  read_payload-All none = tt
  read_payload-All (some raw) =
      if_ind AllHot (raw == "") none _ (λ _. tt) (λ _. loaded (c.loads raw))
    where
      loaded :
          (items : Option (List (ContextItem F)))
          → AllHot (elim items [ none ↦ none | some items ↦ validate_hot items ])
      loaded none = tt
      loaded (some items) = validate_hot-All items

  from_redis-All :
      (r : Reply (Option String)) (k : ℕ) → r ≢ uncaught → AllTiered IsHot (from_redis c r k)
  unfolding from_redis
  from_redis-All (answer raw) k n = first_items-All k (read_payload c raw) (read_payload-All raw)
  from_redis-All timed_out k n = tt
  from_redis-All caught k n = tt
  from_redis-All uncaught k n = absurd (n refl)

  local_hot-All :
      (s : TieredMemoryRouter F R) (key : String) (k now : ℕ)
      (entry : Option (List (ContextItem F) × ℕ))
      → All IsHot (local_hot c s key k now entry).1
  unfolding local_hot
  local_hot-All s key k now none = tt
  local_hot-All s key k now (some (items, ts)) =
      if_ind (λ (x : TieredMemoryRouter F R × List (ContextItem F)). All IsHot x.1)
        (ltb now (ts + s.hot_tier_ttl_s)) _ (s, [])
        (λ _. valid (validate_hot items) (validate_hot-All items)) (λ _. tt)
    where
      valid :
          (v : Option (List (ContextItem F)))
          → AllHot v
          → All IsHot
              (elim v as (λ _. TieredMemoryRouter F R × List (ContextItem F)) [
                | none ↦ (record s { local_cache = remove s.local_cache key }, [])
                | some valid ↦ (s, take k valid)
              ]).1
      valid none t = tt
      valid (some v) t = All-take IsHot k v t

  hot_with-All :
      (calm : IsCalm o c b) (r : Option R) (s : TieredMemoryRouter F R) (key : String) (k now : ℕ)
      → AllTiered IsHot (hot_with c r s key k now).1
  unfolding hot_with
  hot_with-All calm (some r) s key k now = from_redis-All (c.redis_get r key) k (calm.redis r key)
  hot_with-All calm none s key k now = local_hot-All s key k now (get s.local_cache key)

  module _ (s : TieredMemoryRouter F R) (scope_id query : String) (k : ℕ)
      (types : Option (List MemoryType)) (filters : Metadata) (now : ℕ) where
    -- An item that the hot tier was asked for and gave, of a type that it may hold.
    abbrev pub FromHot : ContextItem F → Type 0
    FromHot i =
        (asks_hot types ≡ true)
        × (is_hot i ≡ true)
        × (items : List (ContextItem F)) × ((hot_search c s scope_id k now).1 ≡ some items)
        × In i items

    -- An item of an answer of the long-term memory to the query, with the tier "warm".
    abbrev pub FromWarm : ContextItem F → Type 0
    FromWarm i =
        (n : ℕ) × (budget : F) × (items : List (ContextItem F)) × (j : ContextItem F)
        × (b.ltm_search scope_id query n types filters budget ≡ answer items)
        × In j items
        × (i ≡ record j { tier = "warm" })

    -- An item of an answer of the external memory to the query, with the tier "cold".
    abbrev pub FromCold : ContextItem F → Type 0
    FromCold i =
        (find : String → String → ℕ → Metadata → F → Reply (List (ContextItem F))) × (b.external
          ≡ some find)
        × (n : ℕ) × (budget : F) × (items : List (ContextItem F)) × (j : ContextItem F) × (find
              scope_id query n filters budget
            ≡ answer items)
        × In j items
        × (i ≡ record j { tier = "cold" })

    abbrev pub IsTiered : ContextItem F → Type 0
    IsTiered i = FromHot i ⊎ (FromWarm i ⊎ FromCold i)

    hot-IsTiered :
        (r : Option (List (ContextItem F)))
        → (hot_search c s scope_id k now).1 ≡ r
        → AllTiered IsHot r
        → asks_hot types ≡ true
        → AllTiered IsTiered r
    unfolding IsHot
    hot-IsTiered none e h asks = absurd h
    hot-IsTiered (some items) e h asks =
        All-of IsTiered items (λ i m. inl (asks, All→ IsHot i items h m, items, e, m))

    warm-IsTiered :
        (n : ℕ) (budget : F) (items : List (ContextItem F)) (i : ContextItem F)
        → b.ltm_search scope_id query n types filters budget ≡ answer items
        → In i items
        → IsTiered (record i { tier = "warm" })
    warm-IsTiered n budget items i e m = inr (inl (n, budget, items, i, e, m, refl))

    cold-IsTiered :
        (find : String → String → ℕ → Metadata → F → Reply (List (ContextItem F)))
        → b.external ≡ some find
        → (n : ℕ) (budget : F) (items : List (ContextItem F)) (i : ContextItem F)
        → find scope_id query n filters budget ≡ answer items
        → In i items
        → IsTiered (record i { tier = "cold" })
    cold-IsTiered find is n budget items i e m =
        inr (inr (find, is, n, budget, items, i, e, m, refl))

  -- A search returns where the other programs raise nothing but what the tiers catch: it gives at most
  -- as many items as are asked for. Each is one that the hot tier gave, of the type it may hold, or
  -- one of an answer to the query, of the long-term memory with the tier "warm", or of the external
  -- memory with the tier "cold".
  pub search-AreTiered :
      (calm : IsCalm o c b) (s : TieredMemoryRouter F R) (scope_id query : String)
      (top_k : Option ℕ)
      → (types : Option (List MemoryType)) (filters : Metadata) (budget : F) (l : Latencies F)
        (now : ℕ)
      → (let k = effective_top_k top_k s.default_top_k in
          AreTiered
            (IsTiered s scope_id query k types filters now)
            k
            (search o c b s scope_id query top_k types filters budget l now).1)
  unfolding search hot_search
  search-AreTiered calm s scope_id query top_k types filters budget l now =
      let k = effective_top_k top_k s.default_top_k in
      let P : ContextItem F → Type 0 = IsTiered s scope_id query k types filters now in
      let warm = warm-IsTiered s scope_id query k types filters now in
      let cold = cold-IsTiered s scope_id query k types filters now in
      if_ind (λ (x : TieredMemoryRouter F R × Option (List (ContextItem F))). AreTiered P k x.1)
        (asks_hot types) _ _
        (λ asks.
          after_hot-AreTiered o c b calm P scope_id query types filters warm cold k
            (o.sub budget l.hot) l _
            (hot-IsTiered s scope_id query k types filters now _ refl
              (hot_with-All calm s.redis s (hot_key scope_id) k now) asks))
        (λ _.
          warm_tier-AreTiered o c b calm P scope_id query types filters warm cold k budget l [] tt)
