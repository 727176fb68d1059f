-- ===== src/Orchestrator.antt =====
-- `context_agent/core/memory/orchestrator.py`
pub mod Signals
pub mod Ingest
pub mod Ingested
