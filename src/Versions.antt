-- ===== src/Versions.antt =====
-- `context_agent/core/context/version_manager.py`
pub mod Manager
pub mod History
