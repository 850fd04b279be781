-- ===== src/Resilience.antt =====
-- swx_core/services/llm/resilience.py.
pub mod Breaker
pub mod Retry
mod Tests
