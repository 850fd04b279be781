-- ===== src/Cache.antt =====
-- The caches of swx_core/auth/auth_cache.py and swx_core/utils/cache.py.
pub mod L1
pub mod Auth
pub mod Memory
pub mod Coherence
pub mod Invalidation
mod Tests
