-- ===== src/WorkingMemory.antt =====
-- `context_agent/core/memory/working_memory.py` and `context_agent/models/note.py`
pub mod Notes
pub mod Manager
pub mod Items
pub mod Kept
