-- ===== src/Versions.antt =====
-- The versions of the interface, of swx_core/utils/versioning.py.
pub mod Parse
pub mod Order
pub mod Router
mod Tests
