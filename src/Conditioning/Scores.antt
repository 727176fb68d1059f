-- ===== src/Conditioning/Scores.antt =====
-- `_conditioned_score` and its bonuses. `normal s` stands for `s.strip().lower()`, whose tables
-- are Python's; `normal` is a parameter, and nothing is assumed of it.
use context_agent.Prelude.{
  ℕ, String, Option, none, some, Bool, false, List, [], ◌∷◌, ◌||◌, ◌==◌, if◌then◌else◌, any,
}
use context_agent.Prelude.Dict.{get}
use context_agent.Prelude.Floats.{Floats, clamp}
use context_agent.Models.Values.{Value, text, sequence, Metadata}
use context_agent.Models.Context.{
  MemoryType, procedural, episodic, semantic, variable, MemoryCategory, profile, preferences,
  events, cases, patterns, ContextLevel, abstract, overview, detail, ContextItem, same_memory_type,
  same_category, same_level,
}

module _ {F : Type 0} (o : Floats F) where
  -- `mapping.get(value, 0.0)`, for a mapping written out in the source
  match_bonus : {A : Type 0} → (A → A → Bool) → Option A → List (A × ℕ) → F
  match_bonus same none mapping = o.zero
  match_bonus same (some v) [] = o.zero
  match_bonus same (some v) ((k, n) ∷ mapping) =
      if same v k then o.hundredths n else match_bonus same (some v) mapping

  type_bonus : ContextItem F → List (MemoryType × ℕ) → F
  unfolding match_bonus
  type_bonus item = match_bonus same_memory_type item.memory_type

  category_bonus : ContextItem F → List (MemoryCategory × ℕ) → F
  unfolding match_bonus
  category_bonus item = match_bonus same_category item.category

  level_bonus : ContextItem F → List (ContextLevel × ℕ) → F
  unfolding match_bonus
  level_bonus item = match_bonus same_level (some item.level)

  -- `if test: score += n / 100` and `if test: score -= n / 100`
  add_if : Bool → ℕ → F → F
  add_if test n score = if test then o.add score (o.hundredths n) else score

  sub_if : Bool → ℕ → F → F
  sub_if test n score = if test then o.sub score (o.hundredths n) else score

  is_type : ContextItem F → MemoryType → Bool
  is_type item t = elim item.memory_type [ none ↦ false | some m ↦ same_memory_type m t ]

  qa_score : ContextItem F → F
  unfolding type_bonus category_bonus add_if sub_if is_type
  qa_score item =
      let s1 = o.add item.score (type_bonus item ((semantic, 12) ∷ (episodic, 5) ∷ [])) in
      let s2 = o.add s1 (category_bonus item ((profile, 8) ∷ (preferences, 8) ∷ [])) in
      let s3 = add_if (item.tier == "warm" || item.tier == "cold") 3 s2 in
      sub_if (is_type item variable) 3 s3

  task_score : ContextItem F → F
  unfolding type_bonus category_bonus add_if
  task_score item =
      let s1 =
        o.add item.score
          (type_bonus item ((variable, 12) ∷ (procedural, 12) ∷ (episodic, 3) ∷ [])) in
      let s2 = o.add s1 (category_bonus item ((patterns, 10) ∷ (cases, 8) ∷ [])) in
      let s3 = add_if (item.tier == "hot") 8 s2 in add_if (same_level item.level detail) 4 s3

  long_session_score : ContextItem F → F
  unfolding type_bonus category_bonus level_bonus
  long_session_score item =
      let s1 = o.add item.score (type_bonus item ((episodic, 12) ∷ (semantic, 4) ∷ [])) in
      let s2 = o.add s1 (category_bonus item ((events, 10) ∷ [])) in
      o.add s2 (level_bonus item ((overview, 6) ∷ (abstract, 4) ∷ []))

  realtime_score : ContextItem F → F
  unfolding type_bonus add_if sub_if
  realtime_score item =
      let s1 = o.add item.score (type_bonus item ((variable, 12) ∷ (procedural, 4) ∷ [])) in
      let s2 = add_if (item.tier == "hot") 15 s1 in
      let s3 = add_if (same_level item.level abstract) 5 s2 in
      let s4 = sub_if (same_level item.level detail) 8 s3 in sub_if (item.tier == "cold") 5 s4

  compaction_score : ContextItem F → F
  unfolding type_bonus level_bonus sub_if
  compaction_score item =
      let s1 = o.add item.score (level_bonus item ((abstract, 12) ∷ (overview, 10) ∷ [])) in
      let s2 = o.add s1 (type_bonus item ((episodic, 4) ∷ (semantic, 4) ∷ [])) in
      sub_if (same_level item.level detail) 6 s2

  by_task : String → ContextItem F → F
  unfolding qa_score task_score long_session_score realtime_score compaction_score
  by_task task item =
      if task == "qa"
      then qa_score item
      else if task == "task"
      then task_score item
      else if task == "long_session"
      then long_session_score item
      else if task == "realtime"
      then realtime_score item
      else if task == "compaction"
      then compaction_score item
      else item.score

  by_role : String → ContextItem F → F → F
  unfolding type_bonus category_bonus level_bonus add_if
  by_role role item score =
      if role == "planner"
      then o.add (o.add score (level_bonus item ((abstract, 8) ∷ (overview, 8) ∷ [])))
          (type_bonus item ((semantic, 5) ∷ (procedural, 5) ∷ []))
      else if role == "executor"
      then o.add (add_if (item.tier == "hot") 8 score)
          (type_bonus item ((variable, 8) ∷ (procedural, 8) ∷ []))
      else if role == "reviewer"
      then o.sub
          (o.add (o.add score (category_bonus item ((cases, 8) ∷ (patterns, 8) ∷ [])))
            (type_bonus item ((episodic, 5) ∷ [])))
          (category_bonus item ((profile, 5) ∷ (preferences, 5) ∷ []))
      else score

  module _ (normal : String → String) where
    same_text : String → Option Value → Bool
    same_text expected (some (text s)) = normal s == expected
    same_text expected _ = false

    -- A text is compared whole, another sequence by `any` over its members.
    has_member : String → Option Value → Bool
    has_member expected (some (text s)) = normal s == expected
    has_member expected (some (sequence l)) = any (λ m. normal m == expected) l
    has_member expected _ = false

    metadata_bonus : Metadata → String → String → ℕ → F
    unfolding same_text
    metadata_bonus m key expected bonus =
        if expected == ""
        then o.zero
        else if same_text expected (get m key)
        then o.hundredths bonus
        else o.zero

    metadata_membership_bonus : Metadata → String → String → ℕ → F
    unfolding has_member
    metadata_membership_bonus m key expected bonus =
        if expected == ""
        then o.zero
        else if has_member expected (get m key)
        then o.hundredths bonus
        else o.zero

    unfoldable pub conditioned_score : ContextItem F → String → String → F
    unfolding by_task by_role metadata_bonus metadata_membership_bonus
    conditioned_score item task_type agent_role =
        let task = normal task_type in
        let role = normal agent_role in
        let s1 = by_role role item (by_task task item) in
        let s2 = o.add s1 (metadata_bonus item.metadata "task_type" task 10) in
        let s3 = o.add s2 (metadata_bonus item.metadata "agent_role" role 8) in
        clamp o
          (o.add s3 (metadata_membership_bonus item.metadata "required_for_task_types" task 10))
