-- ===== src/Collector.antt =====
-- `context_agent/core/monitoring/collector.py`
pub mod Worker
pub mod Flushed
pub mod Stopped
pub mod Batches
