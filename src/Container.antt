-- ===== src/Container.antt =====
-- The service container of swx_core/container/container.py and swx_core/container/binding.py.
pub mod Model
pub mod Make
pub mod Registry
pub mod Frame
pub mod Keeping
pub mod Restored
pub mod Reach
pub mod Answers
pub mod Fuel
pub mod Shared
mod Tests
