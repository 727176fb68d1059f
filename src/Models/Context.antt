-- ===== src/Models/Context.antt =====
-- `context_agent/models/context.py`: the enumerations and the context items, over a type of floats
-- for the scores. Times are whole microseconds.
use context_agent.Prelude.{
  ℕ, String, ◌≡◌, ◌↔◌, Option, none, Bool, true, false, List, ◌∷◌, [], ◌++◌, arith, ◌≤◌, eqb, ltb,
}
use context_agent.Prelude.Floats.{Floats, clamp}
use context_agent.Models.Values.{Metadata}

pub data MemoryType : Type 0 where
  procedural episodic semantic variable : MemoryType

pub data MemoryCategory : Type 0 where
  profile preferences entities events cases patterns : MemoryCategory

pub data ContextLevel : Type 0 where
  abstract overview detail : ContextLevel

pub data OutputType : Type 0 where
  snapshot summary search compressed_background compressed raw structured : OutputType

-- `==` on the enumerations.
memory_type_index : MemoryType → ℕ
memory_type_index procedural = 0
memory_type_index episodic = 1
memory_type_index semantic = 2
memory_type_index variable = 3

unfoldable pub same_memory_type : MemoryType → MemoryType → Bool
unfolding memory_type_index
same_memory_type a b = eqb (memory_type_index a) (memory_type_index b)

category_index : MemoryCategory → ℕ
category_index profile = 0
category_index preferences = 1
category_index entities = 2
category_index events = 3
category_index cases = 4
category_index patterns = 5

unfoldable pub same_category : MemoryCategory → MemoryCategory → Bool
unfolding category_index
same_category a b = eqb (category_index a) (category_index b)

level_index : ContextLevel → ℕ
level_index abstract = 0
level_index overview = 1
level_index detail = 2

unfoldable pub same_level : ContextLevel → ContextLevel → Bool
unfolding level_index
same_level a b = eqb (level_index a) (level_index b)

pub same_memory_type_iff : (a b : MemoryType) → (same_memory_type a b ≡ true) ↔ (a ≡ b)
unfolding same_memory_type
same_memory_type_iff a b = ground arith

pub same_category_iff : (a b : MemoryCategory) → (same_category a b ≡ true) ↔ (a ≡ b)
unfolding same_category
same_category_iff a b = ground arith

pub record ContextItem (F : Type 0) : Type 0 where
  pub item_id : String
  pub snapshot_id : String
  pub source_type : String
  pub tier : String
  pub modality : String
  pub language : String
  pub memory_type : Option MemoryType
  pub category : Option MemoryCategory
  pub level : ContextLevel
  pub score : F
  pub active_count : ℕ
  pub content : String
  pub raw_content_ref : Option String
  pub metadata : Metadata
  pub timestamp : ℕ
  pub updated_at : ℕ

pub record ContextSnapshot (F : Type 0) : Type 0 where
  pub snapshot_id : String
  pub scope_id : String
  pub user_id : String
  pub session_id : String
  pub query : String
  pub items : List (ContextItem F)
  pub total_tokens : ℕ
  pub token_budget : ℕ
  pub degraded_sources : List String
  pub metadata : Metadata
  pub created_at : ℕ

unfoldable pub is_over_budget : {F : Type 0} → ContextSnapshot F → Bool
is_over_budget s = ltb s.token_budget s.total_tokens

pub is_over_budget_of_le :
    {F : Type 0} (s : ContextSnapshot F)
    → s.total_tokens ≤ s.token_budget
    → is_over_budget s ≡ false
unfolding is_over_budget
is_over_budget_of_le s h = ground arith

unfoldable pub add_item : {F : Type 0} → ContextSnapshot F → ContextItem F → ContextSnapshot F
add_item s item = record s { items = s.items ++ record item { snapshot_id = s.snapshot_id } ∷ [] }

pub record ContextView (F : Type 0) : Type 0 where
  pub snapshot_id : String
  pub scope_id : String
  pub visible_items : List (ContextItem F)
  pub hidden_item_count : ℕ
  pub applied_policy_id : Option String
  pub created_at : ℕ

pub record ContextOutput (F : Type 0) : Type 0 where
  pub output_type : OutputType
  pub scope_id : String
  pub session_id : String
  pub user_id : String
  pub content : String
  pub token_count : ℕ
  pub snapshot : Option (ContextSnapshot F)
  pub compressed_text : Option String
  pub search_items : Option (List (ContextItem F))
  pub latency_ms : F
  pub degraded : Bool
  pub error : Option String
  pub created_at : ℕ
  pub metadata : Metadata

module _ {F : Type 0} (o : Floats F) where
  -- The field validator, which runs when an item is constructed and not when it is changed.
  unfoldable pub clamp_score : F → F
  clamp_score v = clamp o v

  -- `ContextItem(...)` with the five given fields; the others have their defaults. `item_id` and
  -- `now` are what the default factories return.
  unfoldable pub new_item : String → ℕ → String → String → F → String → Metadata → ContextItem F
  unfolding clamp_score
  new_item item_id now source_type tier score content metadata = record {
    item_id = item_id;
    snapshot_id = "";
    source_type = source_type;
    tier = tier;
    modality = "text";
    language = "zh";
    memory_type = none;
    category = none;
    level = detail;
    score = clamp_score score;
    active_count = 0;
    content = content;
    raw_content_ref = none;
    metadata = metadata;
    timestamp = now;
    updated_at = now;
  }
