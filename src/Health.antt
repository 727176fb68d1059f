-- ===== src/Health.antt =====
-- `context_agent/core/context/health_checker.py`
pub mod Checker
pub mod Reports
