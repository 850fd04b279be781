-- ===== src/Policy.antt =====
-- The ABAC policy engine: swx_core/services/policy/policy_engine.py and policy_registry.py.
pub mod Model
pub mod Actions
pub mod Conditions
pub mod Engine
pub mod Decision
pub mod Finding
pub mod Registry
mod Tests
