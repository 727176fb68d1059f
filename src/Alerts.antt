-- ===== src/Alerts.antt =====
-- `context_agent/core/monitoring/alert_engine.py`
pub mod Engine
pub mod Cooldown
