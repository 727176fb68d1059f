-- ===== src/Aggregation.antt =====
-- `context_agent/orchestration/context_aggregator.py`
pub mod Filters
pub mod Budget
pub mod Dedup
pub mod Sources
pub mod Aggregate
pub mod Selection
