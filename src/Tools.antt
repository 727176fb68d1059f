-- ===== src/Tools.antt =====
-- `context_agent/core/retrieval/tool_governor.py`
pub mod Governor
pub mod Filling
pub mod Choice
pub mod Reliability
