-- ===== src/Orchestrator/Signals.antt =====
-- How a message is classified. The lower case of a text is a parameter.
use context_agent.Prelude.{
  String, ◌==◌, ◌&&◌, Bool, true, false, Option, none, some, List, [], ◌∷◌, any, has_text,
  if◌then◌else◌,
}
use context_agent.Models.Context.{
  MemoryType, MemoryCategory, procedural, episodic, semantic, variable, preferences, profile,
  events,
}

pub record MemorySignal : Type 0 where
  pub should_persist : Bool
  pub memory_type : MemoryType
  pub category : MemoryCategory
  pub reason : String

preference_markers : List String
preference_markers =
    "prefer" ∷ "always" ∷ "remember that i like" ∷ "请用" ∷ "以后请" ∷ "偏好" ∷ "记住我喜欢" ∷ "请始终" ∷ []

profile_markers : List String
profile_markers = "my name is" ∷ "i am " ∷ "i work at" ∷ "我是" ∷ "我叫" ∷ "我的名字" ∷ "我在" ∷ []

conclusion_markers : List String
conclusion_markers =
    "we decided" ∷ "decision:" ∷ "final decision" ∷ "resolved" ∷ "completed" ∷ "done" ∷ "决定" ∷ "结论"
    ∷ "已完成" ∷ "完成了" ∷ "最终方案" ∷ []

unfoldable pub classify_message : (String → String) → String → String → MemorySignal
unfolding preference_markers profile_markers conclusion_markers
classify_message lower role content =
    let text = lower content in
    if any (λ marker. has_text text marker) preference_markers
    then record {
      should_persist = true;
      memory_type = procedural;
      category = preferences;
      reason = "preference";
    }
    else if role == "user" && any (λ marker. has_text text marker) profile_markers
    then record {
      should_persist = true;
      memory_type = semantic;
      category = profile;
      reason = "profile";
    }
    else if any (λ marker. has_text text marker) conclusion_markers
    then record {
      should_persist = true;
      memory_type = episodic;
      category = events;
      reason = "episodic_conclusion";
    }
    else record {
      should_persist = false;
      memory_type = variable;
      category = events;
      reason = "working_memory_only";
    }

unfoldable pub default_category_for_type : MemoryType → MemoryCategory
default_category_for_type procedural = preferences
default_category_for_type semantic = profile
default_category_for_type episodic = events
default_category_for_type variable = events

-- `MemoryType(s)`; `none` where it raises a `ValueError`
unfoldable pub parse_memory_type : String → Option MemoryType
parse_memory_type s =
    if s == "procedural"
    then some procedural
    else if s == "episodic"
    then some episodic
    else if s == "semantic"
    then some semantic
    else if s == "variable"
    then some variable
    else none

-- `memory_type.value` and `category.value`
unfoldable pub memory_type_value : MemoryType → String
memory_type_value procedural = "procedural"
memory_type_value episodic = "episodic"
memory_type_value semantic = "semantic"
memory_type_value variable = "variable"

unfoldable pub category_value : MemoryCategory → String
category_value MemoryCategory.profile = "profile"
category_value MemoryCategory.preferences = "preferences"
category_value MemoryCategory.entities = "entities"
category_value MemoryCategory.events = "events"
category_value MemoryCategory.cases = "cases"
category_value MemoryCategory.patterns = "patterns"
