-- ===== src/Jit.antt =====
-- `context_agent/core/context/jit_resolver.py`
pub mod Cache
pub mod Pruning
pub mod Looking
pub mod Cached
pub mod Resolver
pub mod Rounds
