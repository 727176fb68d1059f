-- ===== src/Tiers.antt =====
-- `context_agent/core/memory/tiered_router.py`
pub mod Hot
pub mod Router
pub mod Passed
pub mod Tiered
pub mod Kept
