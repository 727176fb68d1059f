-- ===== src/Examples/Ingesting.antt =====
-- Messages for both memories.
use context_agent.Prelude.{ℕ, Option, none, some, false, List, [], ◌∷◌}
use context_agent.WorkingMemory.Manager.{Redis, Json, WorkingMemoryManager}
use context_agent.WorkingMemory.Items.{ItemJson}
use context_agent.Processor.Queue.{AsyncMemoryProcessor, fresh}
use context_agent.Orchestrator.Ingest.{IncomingMessage}
use context_agent.Examples.Data.{note_item}

abbrev redis : Redis ℕ
redis = record {
  hset = λ r key field value. (r, false);
  hget = λ r key field. none;
  hgetall = λ r key. none;
  hdel = λ r key field. (r, false);
  expire = λ r key ttl. (r, false);
  delete = λ r key. (r, false);
}

abbrev json : Json
json = record { dump = λ n. "a note"; load = λ s. none }

abbrev item_json : ItemJson ℕ
item_json = record {
  dump_item = λ i. i.content;
  load_item = λ s. some note_item;
  note_text = λ n. "";
  count_up = λ v. none;
}

abbrev memory : WorkingMemoryManager ℕ
memory = record { redis = none; local = []; local_items = [] }

-- A preference, an empty message and small talk.
abbrev messages : List IncomingMessage
messages =
    record { content = "i prefer tea"; role = "user"; metadata = [] }
    ∷ record { content = "  "; role = "user"; metadata = [] }
    ∷ record { content = "hello"; role = ""; metadata = [] }
    ∷ []

abbrev processor : Option (AsyncMemoryProcessor ℕ ℕ)
processor = some (fresh 1 2 0 0)
