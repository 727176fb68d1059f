-- ===== src/Compression.antt =====
-- The compression strategies: their registry, the scheduler, the router that applies them, and the
-- truncations that they fall back to.
pub mod Registry
pub mod Scheduler
pub mod Ensured
pub mod Router
pub mod Outcome
pub mod Messages
pub mod Truncation
pub mod Loops
pub mod Truncated
pub mod Strategies
pub mod Composed
