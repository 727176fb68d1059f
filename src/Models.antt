-- ===== src/Models.antt =====
-- The shared data models: `context_agent/models/` and `context_agent/utils/errors.py`.
pub mod Values
pub mod Context
pub mod Policy
pub mod Ref
pub mod Version
pub mod Metrics
pub mod Errors
