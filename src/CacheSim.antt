-- ===== src/CacheSim.antt =====
-- The cache simulator of lib/cache_sim.
pub mod Types
pub mod Address
pub mod Lru
pub mod Reuse
pub mod Plru
pub mod Access
pub mod Control
pub mod Symbol
pub mod Handle
mod Tests
mod ReuseTests
