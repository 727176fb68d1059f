-- ===== src/Aggregation/Sources.antt =====
-- The first half of `aggregate`: which sources are asked, what their answers come to, and the
-- items and the degraded sources that the loop over them collects.
use mathlib.Core.List.{append_assoc, append-nil}
use context_agent.Prelude.{
  ℕ, String, ◌≡◌, ◌∙◌, Option, none, some, Bool, true, false, List, [], ◌∷◌, ◌++◌, map,
  if◌then◌else◌, is_nil, not,
}
use context_agent.Models.Context.{ContextItem, ContextLevel, MemoryCategory}
use context_agent.Models.Values.{Metadata}
use context_agent.Models.Ref.{ContextRef}

pub data Mode : Type 0 where
  fast quality : Mode

pub record AggregationRequest : Type 0 where
  pub scope_id : String
  pub session_id : String
  pub query : String
  pub refs : List ContextRef
  pub token_budget : ℕ
  pub top_k : ℕ
  pub enable_ltm : Bool
  pub enable_working_memory : Bool
  -- in whole milliseconds
  pub timeout_ms : ℕ
  pub extra_metadata : Metadata
  pub task_type : String
  pub agent_role : String
  pub mode : Mode
  pub max_level : ContextLevel
  pub category_filter : Option (List MemoryCategory)

module _ (F : Type 0) where
  -- How a call of a source ends: with a list, with an exception, or with something else.
  pub data Reply : Type 0 where
    listed : List (ContextItem F) → Reply
    raised : Reply
    not_a_list : Reply

  -- The aggregator's three collaborators, by what their calls come to. `none` is a collaborator
  -- that is not there; `agentic` is `none` where the long-term memory has no `agentic_search`.
  pub record LongTermMemory : Type 0 where
    pub search : String → String → ℕ → Reply
    pub agentic : Option (String → String → ℕ → Reply)

  pub record ContextAggregator : Type 0 where
    pub ltm : Option LongTermMemory
    pub wm : Option (String → String → Reply)
    pub jit : Option (List ContextRef → ℕ → Reply)

module _ {F : Type 0} where
  is_raised : Reply F → Bool
  is_raised (listed l) = false
  is_raised raised = true
  is_raised not_a_list = false

  -- An exception of the agentic search is caught, and the plain search asked instead.
  unfoldable pub ltm_quality_search : LongTermMemory F → AggregationRequest → Reply F
  unfolding is_raised
  ltm_quality_search ltm r =
      let plain = ltm.search r.scope_id r.query r.top_k in
      elim ltm.agentic [
        | none ↦ plain
        | some agentic ↦
            let answer = agentic r.scope_id r.query r.top_k in
            if is_raised answer then plain else answer
      ]

  by_mode : Mode → LongTermMemory F → AggregationRequest → Reply F
  unfolding ltm_quality_search
  by_mode quality ltm r = ltm_quality_search ltm r
  by_mode fast ltm r = ltm.search r.scope_id r.query r.top_k

  ltm_task : ContextAggregator F → AggregationRequest → List (String × Reply F)
  unfolding by_mode
  ltm_task c r = elim c.ltm [
    | none ↦ []
    | some ltm ↦ if r.enable_ltm then ("ltm", by_mode r.mode ltm r) ∷ [] else []
  ]

  wm_task : ContextAggregator F → AggregationRequest → List (String × Reply F)
  wm_task c r = elim c.wm [
    | none ↦ []
    | some wm ↦
        if r.enable_working_memory then ("working_memory", wm r.scope_id r.session_id) ∷ [] else []
  ]

  jit_task : ContextAggregator F → AggregationRequest → List (String × Reply F)
  jit_task c r = elim c.jit [
    | none ↦ []
    | some jit ↦ if not (is_nil r.refs) then ("jit_refs", jit r.refs r.top_k) ∷ [] else []
  ]

  -- The labels, each with what its task comes to. After a timeout of the whole gathering every
  -- task counts as raised.
  unfoldable pub gather : ContextAggregator F → AggregationRequest → Bool → List (String × Reply F)
  unfolding ltm_task wm_task jit_task
  gather c r timed_out =
      let tasks = ltm_task c r ++ (wm_task c r ++ jit_task c r) in
      if timed_out then map {B = String × Reply F} (λ t. (t.0, raised)) tasks else tasks

  -- The loop over the results; `all_items` and `degraded` are its variables.
  unfoldable pub collect :
      List (String × Reply F)
      → List (ContextItem F)
      → List String
      → List (ContextItem F) × List String
  collect [] all_items degraded = (all_items, degraded)
  collect ((label, listed l) ∷ rest) all_items degraded = collect rest (all_items ++ l) degraded
  collect ((label, raised) ∷ rest) all_items degraded =
      collect rest all_items (degraded ++ label ∷ [])
  collect ((label, not_a_list) ∷ rest) all_items degraded =
      collect rest all_items (degraded ++ label ∷ [])

  -- What the sources that answered with a list have listed, and the labels of the others.
  unfoldable pub listed_items : List (String × Reply F) → List (ContextItem F)
  listed_items [] = []
  listed_items ((label, listed l) ∷ rest) = l ++ listed_items rest
  listed_items ((label, raised) ∷ rest) = listed_items rest
  listed_items ((label, not_a_list) ∷ rest) = listed_items rest

  unfoldable pub failed_labels : List (String × Reply F) → List String
  failed_labels [] = []
  failed_labels ((label, listed l) ∷ rest) = failed_labels rest
  failed_labels ((label, raised) ∷ rest) = label ∷ failed_labels rest
  failed_labels ((label, not_a_list) ∷ rest) = label ∷ failed_labels rest

  pub collect_lem :
      (results : List (String × Reply F)) (items : List (ContextItem F)) (degraded : List String)
      → collect results items degraded
        ≡ (items ++ listed_items results, degraded ++ failed_labels results)
  unfolding collect listed_items failed_labels
  collect_lem [] items degraded = simp append-nil
  collect_lem ((label, listed l) ∷ rest) items degraded =
      collect_lem rest (items ++ l) degraded ∙ simp append_assoc
  collect_lem ((label, raised) ∷ rest) items degraded =
      collect_lem rest items (degraded ++ label ∷ []) ∙ simp append_assoc
  collect_lem ((label, not_a_list) ∷ rest) items degraded =
      collect_lem rest items (degraded ++ label ∷ []) ∙ simp append_assoc
