-- ===== src/Guards.antt =====
-- The guards of swx_core/guards.
pub mod Manager
pub mod Origin
mod Tests
