-- ===== src/Tools/Governor.antt =====
-- The registered tools and the choice among them. The retriever is another program: a parameter.
use context_agent.Prelude.{
  ℕ, ◌+◌, ◌-◌, String, text_append, join, Option, none, some, Bool, not, List, [], ◌∷◌, ◌++◌, ◌||◌,
  ◌==◌, leb, ltb, eqb, if◌then◌else◌, is_nil, contains, length, take, keep, map,
}
use context_agent.Prelude.Dict.{Dict, get, put, remove, values}
use context_agent.Prelude.Sort.{sort_desc}
use context_agent.Prelude.Floats.{Floats}
use context_agent.Models.Values.{Value, text, sequence, mapping, other}
use context_agent.Models.Context.{ContextItem, new_item}

module _ (F : Type 0) where
  -- `metadata["tool_stats"]`
  pub record ToolStats : Type 0 where
    pub call_time : ℕ
    pub success_time : ℕ
    pub total_duration_ms : F
    pub prompt_tokens : ℕ
    pub completion_tokens : ℕ

  -- `tool_stats` is the entry of that name in `metadata`, the only one that the governor reads.
  pub record ToolDefinition : Type 0 where
    pub tool_id : String
    pub name : String
    pub description : String
    pub category : String
    pub required_for_task_types : List String
    pub tool_stats : Option ToolStats

  -- The two settings, and the retriever: it answers a search or raises (`none`).
  pub record ToolContextGovernor : Type 0 where
    pub tool_top_k : ℕ
    pub tool_rag_threshold : ℕ
    pub retriever : Option (String → String → String → ℕ → Option (List (ContextItem F)))
    pub tools : Dict ToolDefinition

-- `top_k or self._settings.tool_top_k`
unfoldable pub effective_top_k : Option ℕ → ℕ → ℕ
effective_top_k none default = default
effective_top_k (some k) default = if eqb k 0 then default else k

-- What `item.metadata.get("tool_id")` adds to the set: a text that is not empty; nothing that can be
-- a tool's id where it is another object that has a hash, or is empty. A list and a dict have no
-- hash: `none`, a `TypeError`.
unfoldable pub id_of : Option Value → Option (List String)
id_of none = some []
id_of (some (text s)) = some (if s == "" then [] else s ∷ [])
id_of (some (sequence [])) = some []
id_of (some (sequence (s ∷ l))) = none
id_of (some (mapping s)) = none
id_of (some (other s)) = some []

-- The ids of the first item, and those of the others.
unfoldable pub both_ids : Option (List String) → Option (List String) → Option (List String)
both_ids none rest = none
both_ids (some ids) none = none
both_ids (some ids) (some rest) = some (ids ++ rest)

module _ {F : Type 0} where
  unfoldable pub register_tool : ToolContextGovernor F → ToolDefinition F → ToolContextGovernor F
  register_tool g tool = record g { tools = put g.tools tool.tool_id tool }

  unfoldable pub unregister_tool : ToolContextGovernor F → String → ToolContextGovernor F
  unregister_tool g tool_id = record g { tools = remove g.tools tool_id }

  unfoldable pub suits : String → ToolDefinition F → Bool
  suits task_type tool =
      is_nil tool.required_for_task_types || contains tool.required_for_task_types task_type

  -- `_filter_by_task_type`
  unfoldable pub filter_by_task_type : ToolContextGovernor F → String → List (ToolDefinition F)
  unfolding suits
  filter_by_task_type g task_type =
      if task_type == "" then values g.tools else keep (suits task_type) (values g.tools)

  -- `none` where the set comprehension raises
  unfoldable pub selected_ids : List (ContextItem F) → Option (List String)
  unfolding id_of both_ids
  selected_ids [] = some []
  selected_ids (i ∷ items) = both_ids (id_of (get i.metadata "tool_id")) (selected_ids items)

  -- The tools that the search found, then the others as long as there is room.
  unfoldable pub fill : List String → List (ToolDefinition F) → ℕ → List (ToolDefinition F)
  fill ids tools top_k =
      let matched = keep (λ t. contains ids t.tool_id) tools in
      let rest = keep (λ t. not (contains ids t.tool_id)) tools in
      take top_k (
        if ltb (length matched) top_k
        then matched ++ take (top_k - length matched) rest
        else matched)

  -- What follows the search.
  unfoldable pub fill_selected :
      Option (List String) → List (ToolDefinition F) → ℕ → Option (List (ToolDefinition F))
  fill_selected none tools top_k = none
  fill_selected (some ids) tools top_k = some (fill ids tools top_k)

  -- `_rag_select`, `none` where the search raises, or the set of the ids
  unfoldable pub rag_select :
      (String → String → String → ℕ → Option (List (ContextItem F)))
      → String
      → String
      → List (ToolDefinition F)
      → ℕ
      → Option (List (ToolDefinition F))
  unfolding selected_ids fill_selected
  rag_select agentic_search scope_id task tools top_k =
      let query = text_append task (text_append " " (join " " (map (λ t. t.name) tools))) in
      elim (agentic_search scope_id query task top_k) [
        | none ↦ none
        | some items ↦ fill_selected (selected_ids items) tools top_k
      ]

  -- What one more call adds to a tool's statistics.
  unfoldable pub counted : Floats F → Bool → F → ℕ → ℕ → Option (ToolStats F) → ToolStats F
  counted o success duration_ms prompt completion none = record {
    call_time = 1;
    success_time = if success then 1 else 0;
    total_duration_ms = o.add o.zero duration_ms;
    prompt_tokens = prompt;
    completion_tokens = completion;
  }
  counted o success duration_ms prompt completion (some s) = record {
    call_time = s.call_time + 1;
    success_time = if success then s.success_time + 1 else s.success_time;
    total_duration_ms = o.add s.total_duration_ms duration_ms;
    prompt_tokens = s.prompt_tokens + prompt;
    completion_tokens = s.completion_tokens + completion;
  }

module _ {F : Type 0} (o : Floats F) where
  rate_of : Option (ToolStats F) → F
  rate_of none = o.one
  rate_of (some s) =
      if eqb s.call_time 0 then o.one else o.div (o.of_int s.success_time) (o.of_int s.call_time)

  -- `_success_rate`
  unfoldable pub success_rate : ToolDefinition F → F
  unfolding rate_of
  success_rate tool = rate_of tool.tool_stats

  unfoldable pub less_reliable : ToolDefinition F → ToolDefinition F → Bool
  less_reliable t u = o.lt (success_rate t) (success_rate u)

  -- `_sort_by_success_rate`
  unfoldable pub sort_by_success_rate : List (ToolDefinition F) → List (ToolDefinition F)
  sort_by_success_rate tools = sort_desc less_reliable tools

  -- `select_tools`, `none` where `_rag_select` raises
  unfoldable pub select_tools :
      ToolContextGovernor F → String → String → String → Option ℕ → Option (List (ToolDefinition F))
  select_tools g scope_id task task_type top_k =
      let k = effective_top_k top_k g.tool_top_k in
      let tools = filter_by_task_type g task_type in
      if leb (length tools) g.tool_rag_threshold
      then some (take k (sort_by_success_rate tools))
      else elim g.retriever [
        | none ↦ some (take k tools)
        | some agentic_search ↦ rag_select agentic_search scope_id task tools k
      ]

  -- A tool's entry is changed in place: it keeps its position.
  unfoldable pub record_tool_result :
      ToolContextGovernor F → String → Bool → F → ℕ → ℕ → ToolContextGovernor F
  unfolding counted
  record_tool_result g tool_id success duration_ms prompt completion = elim (get g.tools tool_id) [
    | none ↦ g
    | some tool ↦ record g {
      tools = put g.tools tool_id (record tool {
        tool_stats = some (counted o success duration_ms prompt completion tool.tool_stats);
      });
    }
  ]

  -- f"[{tool_id}] {name}: {description}"
  described : ToolDefinition F → String
  described t = text_append "[" (
      text_append t.tool_id
        (text_append "] " (text_append t.name (text_append ": " t.description))))

  unfoldable pub to_context_item : String → ℕ → ToolDefinition F → ContextItem F
  unfolding described
  to_context_item new_id now t =
      new_item o new_id now "tool_definition" "hot" o.one (described t)
        (("tool_id", text t.tool_id) ∷ ("category", text t.category) ∷ [])

  -- `get_tool_context_items`; `new_id` gives the id of a tool's item.
  unfoldable pub get_tool_context_items :
      (String → String)
      → ℕ
      → ToolContextGovernor F
      → String
      → String
      → String
      → Option ℕ
      → Option (List (ContextItem F))
  get_tool_context_items new_id now g scope_id task task_type top_k =
      elim (select_tools g scope_id task task_type top_k) [
        | none ↦ none
        | some l ↦ some (map (λ t. to_context_item (new_id t.tool_id) now t) l)
      ]
