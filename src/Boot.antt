-- ===== src/Boot.antt =====
-- kernel/src/main.rs: what `kernel_main` does, and the panic handler.
pub mod Start
pub mod Soak
pub mod Watch
pub mod Promotion
pub mod Driver
pub mod Demo
pub mod Panic
pub mod Tests
