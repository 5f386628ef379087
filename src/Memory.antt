-- ===== src/Memory.antt =====
-- kernel/src/memory.rs and kernel/src/memory/: the frame allocators.
pub mod Regions
pub mod Cursor
pub mod Bump
pub mod Buddy
pub mod SelfTest
pub mod Mapping
pub mod Bringup
mod Tests
