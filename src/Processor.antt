-- ===== src/Processor.antt =====
-- `context_agent/core/memory/async_processor.py`
pub mod Tasks
pub mod Queue
pub mod Conserved
pub mod Drained
