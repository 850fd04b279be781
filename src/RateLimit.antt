-- ===== src/RateLimit.antt =====
-- The sliding window of swx_core/utils/rate_limit.py and the limits of swx_core/services/rate_limit.
pub mod Memory
pub mod Window
pub mod Service
pub mod Limits
mod Tests
