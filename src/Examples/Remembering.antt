-- ===== src/Examples/Remembering.antt =====
-- The fusion of the rankings, and the notes.
use context_agent.Prelude.{
  ℕ, ◌≡◌, refl, String, inl, inr, none, some, true, false, List, [], ◌∷◌, if◌then◌else◌, eqb, ◌==◌,
  eq_iff, ◌≢◌,
}
use context_agent.Prelude.Dict.{get, put, get_or}
use context_agent.Models.Values.{text}
use context_agent.Models.Context.{ContextItem}
use context_agent.Models.Errors.{context_agent_error, note_not_found}
use context_agent.Retrieval.Hotness.{Maths}
use context_agent.Retrieval.Fusion.{rrf_fuse}
use context_agent.Retrieval.Fused.{IsFusion, rrf_fuse-IsFusion}
use context_agent.Retrieval.Coordinator.{Paths, RetrievalPlan, collected_lists, search}
use context_agent.Retrieval.Searched.{IsFound, search-IsFound}
use context_agent.WorkingMemory.Notes.{WorkingNote, task_plan}
use context_agent.WorkingMemory.Manager.{
  Redis, Json, WorkingMemoryManager, hash_key, get_note, update_note, delete_note, update_all,
}
use context_agent.WorkingMemory.Kept.{get_note-update_note, get_note-delete_note}
use context_agent.Examples.Data.{cents, cents-IsOrdered, same_text, three_items, tool_item}

-- Coarse stand-ins for the functions of `math`.
abbrev maths : Maths ℕ
maths = record { neg = λ a. a; exp = λ a. 100; log = λ a. a; log1p = λ a. a; tanh = λ a. a }

rrf_fuse-IsFusion_example :
    (result : List (ContextItem ℕ)) × (rrf_fuse cents maths 9 60 20 700 2
        (three_items ∷ (tool_item ∷ []) ∷ [])
      ≡ some result)
    × IsFusion cents (three_items ∷ (tool_item ∷ []) ∷ []) 2 result
rrf_fuse-IsFusion_example =
    rrf_fuse-IsFusion cents maths 9 60 20 700 cents-IsOrdered refl 2
      (three_items ∷ (tool_item ∷ []) ∷ [])

-- A retriever of which the graph search fails, and no long-term memory.
abbrev paths : Paths ℕ
paths = record {
  hybrid_search = λ scope_id query top_k v s filters. some three_items;
  graph_search = λ scope_id query. none;
  rerank_items = λ query items top_k. none;
  ltm_search = none;
}

abbrev retrieval_plan : RetrievalPlan ℕ
retrieval_plan = record {
  query = "what is next";
  scope_id = "team";
  task_type = "task";
  agent_role = "";
  top_k = 1;
  enable_hybrid = true;
  enable_graph = true;
  enable_ltm = true;
  enable_hierarchy = false;
  hierarchy_prefix = "";
  vector_weight = 70;
  sparse_weight = 30;
  rerank = false;
  rerank_top_k = 5;
  timeout_ms = 30000;
  rrf_k = 60;
  filters = [];
}

search-IsFound_example :
    (result : List (ContextItem ℕ)) × (search cents maths same_text
        (λ l. "")
        20
        700
        paths
        retrieval_plan
        false
        9
      ≡ some result)
    × IsFound cents (collected_lists (λ l. "") paths retrieval_plan false) 1 result
search-IsFound_example =
    search-IsFound cents maths same_text (λ l. "") 20 700 cents-IsOrdered refl paths retrieval_plan
      false 9 refl

abbrev note : WorkingNote
note = record {
  note_id = "n1";
  scope_id = "team";
  session_id = "monday";
  note_type = task_plan;
  content = ("goal", text "ship") ∷ [];
  schema_version = 1;
  tags = [];
  created_at = 5;
  updated_at = 5;
  expires_at = none;
}

abbrev finished_note : WorkingNote
finished_note = record note { content = ("goal", text "shipped") ∷ []; updated_at = 9 }

-- No client, and a text for each of the two notes.
abbrev redis : Redis ℕ
redis = record {
  hset = λ r key field value. (r, false);
  hget = λ r key field. none;
  hgetall = λ r key. none;
  hdel = λ r key field. (r, false);
  expire = λ r key ttl. (r, false);
  delete = λ r key. (r, false);
}

abbrev json : Json
json = record {
  dump = λ (n : WorkingNote). if eqb n.updated_at 5 then "first" else "second";
  load = λ s. if s == "first" then some note else some finished_note;
}

abbrev empty : WorkingMemoryManager ℕ
empty = record { redis = none; local = []; local_items = [] }

abbrev with_note : WorkingMemoryManager ℕ
with_note = record empty { local = ("ca:wm:team:monday", ("n1", "first") ∷ []) ∷ [] }

second_lem : ◌≢◌ {A = String} "second" ""
second_lem e = cc ((eq_iff "second" "").1 e)

found_note : get_note redis json with_note "team" "monday" "n1" ≡ inr note
unfolding get_note get_or get hash_key
found_note = refl

get_note-update_note_example :
    ((update_note redis json with_note "team" "monday" "n1" (("goal", text "shipped") ∷ []) 9).1
      ≡ inr finished_note)
    × (get_note redis json
          (update_note redis json with_note "team" "monday" "n1"
            (("goal", text "shipped") ∷ [])
            9).0
          "team"
          "monday"
          "n1"
        ≡ inr finished_note)
unfolding update_all put hash_key
get_note-update_note_example =
    get_note-update_note redis json 9 with_note note (("goal", text "shipped") ∷ []) "team" "monday"
      "team" "monday" "n1" refl found_note (refl, second_lem)

get_note-delete_note_example :
    get_note redis json
      (delete_note redis json with_note "team" "monday" "n1").0
      "team"
      "monday"
      "n1"
    ≡ inl (context_agent_error note_not_found)
unfolding hash_key get_or
get_note-delete_note_example =
    get_note-delete_note redis json with_note "team" "monday" "n1" "team" "monday" "n1" refl
      (tt, tt)
