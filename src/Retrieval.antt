-- ===== src/Retrieval.antt =====
-- `context_agent/core/retrieval/search_coordinator.py` and `context_agent/core/memory/hotness.py`
pub mod Hotness
pub mod Fusion
pub mod Counted
pub mod Fused
pub mod Coordinator
pub mod Searched
