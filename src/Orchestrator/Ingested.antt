-- ===== src/Orchestrator/Ingested.antt =====
-- What is stored, and what is handed over.
use context_agent.Prelude.{ℕ, ◌+◌, String, inr, Bool, not, List, [], ◌∷◌, ◌++◌, map, keep, length}
use context_agent.Prelude.Floats.{Floats}
use context_agent.Models.Context.{ContextItem}
use context_agent.WorkingMemory.Manager.{
  Redis, Json, WorkingMemoryManager, Called, put_in, items_key,
}
use context_agent.WorkingMemory.Items.{ItemJson}
use context_agent.Processor.Tasks.{TaskMessage}
use context_agent.Orchestrator.Ingest.{
  IncomingMessage, is_blank, is_persisted, ltm_message, to_item,
}

module _ (lower : String → String) (show : List String → String) {R F : Type 0} (o : Floats F)
    (b : Redis R) (j : Json) (i : ItemJson F) (scope_id session_id : String)
    (persist_long_term : Bool) where
  -- The messages with a content, and what of them the long-term memory is given.
  abbrev pub spoken : List IncomingMessage → List IncomingMessage
  spoken messages = keep (λ m. not (is_blank lower show m)) messages

  abbrev pub persisted : List IncomingMessage → List TaskMessage
  persisted messages =
      map (ltm_message lower show scope_id session_id persist_long_term)
        (keep (is_persisted lower show persist_long_term) (spoken messages))

  -- The state after the item has been written.
  abbrev pub stored : WorkingMemoryManager R → ContextItem F → WorkingMemoryManager R
  stored w item = record w {
    local_items =
        put_in w.local_items (items_key scope_id session_id) item.item_id (i.dump_item item);
  }

  -- The items of some messages written one after the other: the item of the message number `n` has the
  -- id number `n`.
  abbrev pub all_stored :
      (ℕ → String) → ℕ → ℕ → WorkingMemoryManager R → List IncomingMessage → WorkingMemoryManager R
  all_stored item_ids now n w [] = w
  all_stored item_ids now n w (m ∷ messages) =
      all_stored item_ids now (n + 1)
        (stored w
          (to_item lower show o b j i scope_id session_id persist_long_term (item_ids n) now m))
        messages

  -- What the loop comes to for the messages that have a content.
  ending :
      (ℕ → String)
      → ℕ
      → ℕ
      → WorkingMemoryManager R
      → List TaskMessage
      → List IncomingMessage
      → Called R (ℕ × List TaskMessage)
  ending item_ids now n w acc k = (
    all_stored item_ids now n w k,
    inr (
      n + length k,
      acc
          ++ map (ltm_message lower show scope_id session_id persist_long_term)
              (keep (is_persisted lower show persist_long_term) k),
    ),
  )
