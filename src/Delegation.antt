-- ===== src/Delegation.antt =====
-- `context_agent/orchestration/sub_agent_manager.py`
pub mod Manager
pub mod Tickets
