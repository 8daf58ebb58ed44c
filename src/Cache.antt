-- ===== src/Cache.antt =====
-- The span cache: gateway/base/cache.py.
pub mod Lru
pub mod Keys
pub mod Entries
mod Tests
