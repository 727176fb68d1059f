-- ===== src/Processor/Tasks.antt =====
-- The tasks, and what processing one comes to. The long-term memory, the checker of conflicts and the
-- hot tier are other programs: a call that fails may have changed them, so it gives their state and
-- whether it has returned.
use context_agent.Prelude.{ℕ, String, ◌==◌, Option, none, some, Bool, true, List, if◌then◌else◌}
use context_agent.Models.Values.{Metadata}
use context_agent.Models.Context.{ContextItem}

pub data MemoryTaskType : Type 0 where
  add delete update check_conflicts : MemoryTaskType

pub record TaskMessage : Type 0 where
  pub role : String
  pub content : String
  pub metadata : Metadata

pub record MemoryTask : Type 0 where
  pub scope_id : String
  pub task_type : MemoryTaskType
  pub session_id : String
  pub user_id : String
  pub messages : List TaskMessage
  pub memory_id : String
  pub updates : Metadata
  pub created_at : ℕ
  pub callback_event : String

pub record MemoryUpdatedEvent : Type 0 where
  pub scope_id : String
  pub task_type : MemoryTaskType
  pub success : Bool

module _ (F L H : Type 0) where
  pub record Services : Type 0 where
    pub add_messages : L → String → String → List TaskMessage → String → L × Bool
    pub delete_by_id : L → String → String → L × Bool
    pub update_by_id : L → String → String → Metadata → L × Bool
    -- `none` where the search raises
    pub search : L → String → String → ℕ → Option (List (ContextItem F))
    -- `none` where there is no checker. The checker raises (`none`), answers without messages
    -- (`some none`), or gives the messages to keep.
    pub check : Option (List TaskMessage → String → Option (Option (List TaskMessage)))
    -- `none` where there is no tiered router
    pub warm_cache : Option (H → String → List (ContextItem F) → H)

module _ {F L H : Type 0} (b : Services F L H) where
  -- The answer of the checker, or the messages as they are.
  checked : Option (Option (List TaskMessage)) → List TaskMessage → List TaskMessage
  checked none messages = messages
  checked (some none) messages = messages
  checked (some (some kept)) messages = kept

  unfoldable pub messages_to_add : MemoryTask → List TaskMessage
  unfolding checked
  messages_to_add task = elim b.check [
    | none ↦ task.messages
    | some check ↦
        checked (check task.messages (if task.user_id == "" then task.scope_id else task.user_id))
          task.messages
  ]

  by_type : MemoryTaskType → L → MemoryTask → L × Bool
  by_type add ltm task =
      b.add_messages ltm task.scope_id task.session_id (messages_to_add task) task.user_id
  by_type delete ltm task = b.delete_by_id ltm task.scope_id task.memory_id
  by_type update ltm task = b.update_by_id ltm task.scope_id task.memory_id task.updates
  by_type check_conflicts ltm task = (ltm, true)

  -- The write of a task: the memory after it, and whether it has returned.
  unfoldable pub write : L → MemoryTask → L × Bool
  unfolding by_type
  write ltm task = by_type task.task_type ltm task

  warm_with : Option (List (ContextItem F)) → H → String → H
  warm_with none hot scope_id = hot
  warm_with (some items) hot scope_id = elim b.warm_cache [
    | none ↦ hot
    | some warm_cache ↦ warm_cache hot scope_id items
  ]

  refresh : MemoryTaskType → L → H → String → H
  unfolding warm_with
  refresh add ltm hot scope_id = warm_with (b.search ltm scope_id "" 20) hot scope_id
  refresh delete ltm hot scope_id = hot
  refresh update ltm hot scope_id = hot
  refresh check_conflicts ltm hot scope_id = hot

  -- `_process`: the two stores after it, and the event that it notifies the subscribers of, whether
  -- the write returns or raises. An exception of a subscriber is caught.
  unfoldable pub process : L → H → MemoryTask → L × H × MemoryUpdatedEvent
  unfolding refresh
  process ltm hot task =
      let (ltm', success) = write ltm task in
      (
        ltm',
        if success then refresh task.task_type ltm' hot task.scope_id else hot,
        record { scope_id = task.scope_id; task_type = task.task_type; success = success },
      )
