-- ===== src/Tools/Choice.antt =====
-- Which tools are chosen, and how many.
use context_agent.Prelude.{
  ℕ, ◌≤◌, ◌<◌, min, String, ◌≡◌, ◌⊎◌, Option, none, some, List, [], ◌∷◌, length, take, In, All,
}
use mathlib.Core.List.{Perm}
use context_agent.Prelude.Dict.{values, get}
use context_agent.Models.Values.{Value, text, sequence, mapping, other}
use context_agent.Prelude.Sort.{Descending}
use context_agent.Prelude.Floats.{Floats, IsOrdered}
use context_agent.Models.Context.{ContextItem}
use context_agent.Tools.Governor.{
  ToolDefinition, ToolContextGovernor, filter_by_task_type, effective_top_k, selected_ids,
  less_reliable,
}
use context_agent.Tools.Filling.{found_first}

-- An entry that has a hash, or that is skipped because it is empty.
abbrev pub HasHash : Option Value → Type 0
HasHash none = Unit
HasHash (some (text s)) = Unit
HasHash (some (sequence [])) = Unit
HasHash (some (sequence (s ∷ l))) = ⊥
HasHash (some (mapping s)) = ⊥
HasHash (some (other s)) = Unit

-- Every find of the retriever is answered, with items whose `tool_id` has a hash.
abbrev pub Answers : {F : Type 0} → ToolContextGovernor F → Type 0
Answers {F} g =
    (find : String → String → String → ℕ → Option (List (ContextItem F)))
    → g.retriever ≡ some find
    → (scope_id query task : String) (k : ℕ)
    → (items : List (ContextItem F)) × (find scope_id query task k ≡ some items)
      × All (λ (i : ContextItem F). HasHash (get i.metadata "tool_id")) items

-- A registered tool that names no task types, or names this one; any tool where no type is asked for.
abbrev pub Suits : {F : Type 0} → ToolContextGovernor F → String → ToolDefinition F → Type 0
Suits g task_type tool =
    In tool (values g.tools)
    × ((task_type ≡ "")
        ⊎ ((tool.required_for_task_types ≡ []) ⊎ In task_type tool.required_for_task_types))

-- The order that a choice is the beginning of. Up to the threshold: from the most reliable tool to the
-- least. Over it without a retriever: as registered. With one: first the tools of an answer to a
-- search for the task, and then the others.
abbrev pub IsRanking :
    {F : Type 0}
    → Floats F
    → ToolContextGovernor F
    → String
    → String
    → List (ToolDefinition F)
    → ℕ
    → List (ToolDefinition F)
    → Type 0
IsRanking {F} o g scope_id task tools k ranking =
    ((length tools ≤ g.tool_rag_threshold)
      × Perm ranking tools
      × Descending (less_reliable o) ranking)
    ⊎ ((g.tool_rag_threshold < length tools)
        × (((g.retriever ≡ none) × (ranking ≡ tools))
            ⊎ ((find : String → String → String → ℕ → Option (List (ContextItem F)))
                × (query : String) × (items : List (ContextItem F)) × (ids : List String)
                × (g.retriever ≡ some find)
                × (find scope_id query task k ≡ some items)
                × (selected_ids items ≡ some ids)
                × (ranking ≡ found_first ids tools))))

-- A choice of `k` among the tools that suit the task type.
pub record IsChoice {F : Type 0} (o : Floats F) (g : ToolContextGovernor F)
    (scope_id task task_type : String) (k : ℕ) (l : List (ToolDefinition F)) : Type 0 where
  pub amount : length l ≡ min k (length (filter_by_task_type g task_type))
  pub suitable : All (Suits g task_type) l
  pub first :
      (ranking : List (ToolDefinition F)) × (l ≡ take k ranking)
      × IsRanking o g scope_id task (filter_by_task_type g task_type) k ranking

module _ {F : Type 0} (o : Floats F) where
  module _ (g : ToolContextGovernor F) (scope_id task task_type : String) (top_k : Option ℕ) where
    asked : ℕ
    asked = effective_top_k top_k g.tool_top_k

    fitting : List (ToolDefinition F)
    fitting = filter_by_task_type g task_type

  module _ (ord : IsOrdered o) (g : ToolContextGovernor F) (scope_id task task_type : String)
      (k : ℕ) where
    tools : List (ToolDefinition F)
    tools = filter_by_task_type g task_type
