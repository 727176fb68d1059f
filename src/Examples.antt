-- ===== src/Examples.antt =====
-- Concrete inputs, and the theorems at them.
pub mod Data
mod Choosing
mod Caching
mod Routing
mod Keeping
mod Running
mod Compressing
mod Remembering
mod Tiering
mod Checking
mod Ingesting
