-- ===== src/Jit/Resolver.antt =====
-- `resolve`, `_dispatch` and `store_tool_result`, with the cache in process or in Redis. The retriever,
-- the working memory and Redis are other programs: what a call of them comes to is a parameter.
use context_agent.Prelude.{
  ℕ, String, text_append, split_colon, Option, none, some, List, [], ◌∷◌, if◌then◌else◌, eqb, take,
}
use context_agent.Prelude.Dict.{Dict}
use context_agent.Prelude.Floats.{Floats}
use context_agent.Models.Values.{text}
use context_agent.Models.Context.{ContextItem, new_item}
use context_agent.Models.Ref
use context_agent.Models.Ref.{
  ContextRef, RefType, vector, graph, memory, scratchpad, tool_result, file, object,
}
use context_agent.Jit.Cache.{CacheEntry, get_local_cache, set_local_cache}

-- How a call ends: with a value, or with an exception that reaches the caller.
pub data Answer (A : Type 0) : Type 0 where
  answered : A → Answer A
  raised : Answer A

-- A note of the working memory, with its content as JSON text.
pub record Note : Type 0 where
  pub note_id : String
  pub note_type : String
  pub content_json : String

-- The readings of the clocks in one call, and what the default factory of an item id returns.
pub record Readings : Type 0 where
  pub today : ℕ
  pub read_at : ℕ
  pub tool_at : ℕ
  pub write_at : ℕ
  pub new_id : String

module _ (F R : Type 0) where
  pub record Backends : Type 0 where
    pub agentic_search : String → String → String → ℕ → Answer (List (ContextItem F))
    pub graph_search : String → String → Answer (List (ContextItem F))
    -- `none` where there is no working memory; `raised` where `get_note` raises
    pub get_note : Option (String → String → String → Answer Note)
    -- Redis: `none` for a missing key, for one that holds nothing, and for every error that the
    -- resolver catches; a failed write changes nothing.
    pub redis_list : R → String → Option (List (ContextItem F))
    pub redis_item : R → String → Option (ContextItem F)
    pub redis_setex : R → String → ℕ → List (ContextItem F) → R
    pub redis_setex_item : R → String → ℕ → ContextItem F → R

  pub record JitResolver : Type 0 where
    pub redis : Option R
    pub local_cache : Dict (CacheEntry (List (ContextItem F)))
    pub jit_cache_ttl_s : ℕ
    pub jit_cache_local_max_entries : ℕ

module _ {F R : Type 0} (o : Floats F) (b : Backends F R) where
  -- `_get_local_cache` and `_set_local_cache`, as methods
  unfoldable pub get_local :
      JitResolver F R → String → ℕ → JitResolver F R × Option (List (ContextItem F))
  get_local s key now =
      let (cache, items) = get_local_cache s.jit_cache_local_max_entries s.local_cache key now in
      (record s { local_cache = cache }, items)

  unfoldable pub set_local :
      JitResolver F R → String → List (ContextItem F) → ℕ → ℕ → JitResolver F R
  set_local s key items ttl_s now = record s {
    local_cache = set_local_cache s.jit_cache_local_max_entries s.local_cache key items ttl_s now;
  }

  -- `_get_cache`
  unfoldable pub get_cache :
      JitResolver F R → String → ℕ → JitResolver F R × Option (List (ContextItem F))
  unfolding get_local
  get_cache s ref_id now = elim s.redis [
    | none ↦ get_local s (text_append "ca:jit:" ref_id) now
    | some r ↦ (s, b.redis_list r (text_append "ca:jit:" ref_id))
  ]

  -- `_set_cache`
  unfoldable pub set_cache : JitResolver F R → String → List (ContextItem F) → ℕ → JitResolver F R
  unfolding set_local
  set_cache s ref_id items now = elim s.redis [
    | none ↦ set_local s (text_append "ca:jit:" ref_id) items s.jit_cache_ttl_s now
    | some r ↦ record s {
      redis = some (b.redis_setex r (text_append "ca:jit:" ref_id) s.jit_cache_ttl_s items);
    }
  ]

  -- f"ca:tool:{scope_id}:{cache_key}"
  unfoldable pub tool_key : String → String → String
  tool_key scope_id cache_key =
      text_append "ca:tool:" (text_append scope_id (text_append ":" cache_key))

  unfoldable pub first_of_cached : Option (List (ContextItem F)) → List (ContextItem F)
  first_of_cached none = []
  first_of_cached (some l) = take 1 l

  one_item : Option (ContextItem F) → List (ContextItem F)
  one_item none = []
  one_item (some i) = i ∷ []

  -- `_resolve_tool_result`
  unfoldable pub resolve_tool_result :
      JitResolver F R → String → String → ℕ → JitResolver F R × List (ContextItem F)
  unfolding get_local tool_key first_of_cached one_item
  resolve_tool_result s cache_key scope_id now = elim s.redis [
    | none ↦
        let (s', cached) = get_local s (tool_key scope_id cache_key) now in
        (s', first_of_cached cached)
    | some r ↦ (s, one_item (b.redis_item r (tool_key scope_id cache_key)))
  ]

  -- `ttl_s or self._settings.jit_cache_ttl_s`
  unfoldable pub effective_ttl : Option ℕ → ℕ → ℕ
  effective_ttl none default = default
  effective_ttl (some t) default = if eqb t 0 then default else t

  unfoldable pub store_tool_result :
      JitResolver F R → String → String → ContextItem F → Option ℕ → ℕ → JitResolver F R
  unfolding set_local tool_key effective_ttl
  store_tool_result s scope_id cache_key item ttl_s now = elim s.redis [
    | none ↦
        set_local s (tool_key scope_id cache_key) (item ∷ [])
          (effective_ttl ttl_s s.jit_cache_ttl_s) now
    | some r ↦ record s {
      redis = some (
          b.redis_setex_item r (tool_key scope_id cache_key) (effective_ttl ttl_s s.jit_cache_ttl_s)
            item);
    }
  ]

  -- The session and the note that a scratchpad locator names.
  note_address : String → String × String
  note_address locator = elim (split_colon locator) [ none ↦ ("", locator) | some p ↦ p ]

  note_item : String → ℕ → Answer Note → List (ContextItem F)
  note_item new_id now raised = []
  note_item new_id now (answered note) =
      new_item o new_id now "scratchpad" "hot" o.one note.content_json
        (("note_type", text note.note_type) ∷ ("note_id", text note.note_id) ∷ [])
      ∷ []

  -- `_resolve_scratchpad`, which turns every exception into no items
  unfoldable pub resolve_scratchpad : ContextRef → Readings → List (ContextItem F)
  unfolding note_address note_item
  resolve_scratchpad ref t = elim b.get_note [
    | none ↦ []
    | some get_note ↦
        let (session_id, note_id) = note_address ref.locator in
        note_item t.new_id t.today (get_note ref.scope_id session_id note_id)
  ]

  by_type :
      RefType
      → JitResolver F R
      → ContextRef
      → ℕ
      → Readings
      → JitResolver F R × Answer (List (ContextItem F))
  unfolding resolve_scratchpad resolve_tool_result
  by_type vector s ref top_k t = (s, b.agentic_search ref.scope_id ref.locator ref.locator top_k)
  by_type graph s ref top_k t = (s, b.graph_search ref.scope_id ref.locator)
  by_type memory s ref top_k t = (s, b.agentic_search ref.scope_id ref.locator ref.locator top_k)
  by_type scratchpad s ref top_k t = (s, answered (resolve_scratchpad ref t))
  by_type tool_result s ref top_k t =
      let (s', items) = resolve_tool_result s ref.locator ref.scope_id t.tool_at in
      (s', answered items)
  by_type file s ref top_k t = (s, b.agentic_search ref.scope_id ref.locator ref.locator top_k)
  by_type object s ref top_k t = (s, b.agentic_search ref.scope_id ref.locator ref.locator top_k)

  unfoldable pub dispatch :
      JitResolver F R → ContextRef → ℕ → Readings → JitResolver F R × Answer (List (ContextItem F))
  unfolding by_type
  dispatch s ref top_k t = by_type ref.ref_type s ref top_k t

  -- What follows a dispatch: only an answer is cached.
  unfoldable pub remember :
      ContextRef
      → Readings
      → JitResolver F R × Answer (List (ContextItem F))
      → JitResolver F R × Answer (List (ContextItem F))
  remember ref t (s, raised) = (s, raised)
  remember ref t (s, answered items) = (set_cache s ref.ref_id items t.write_at, answered items)

  unfoldable pub resolve :
      JitResolver F R → ContextRef → ℕ → Readings → JitResolver F R × Answer (List (ContextItem F))
  unfolding remember
  resolve s ref top_k t =
      let (s1, cached) = get_cache s ref.ref_id t.read_at in
      let fresh = remember ref t (dispatch s1 ref top_k t) in
      if Ref.is_expired ref t.today
      then (s, answered [])
      else elim cached [ none ↦ fresh | some items ↦ (s1, answered items) ]
