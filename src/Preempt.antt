-- ===== src/Preempt.antt =====
-- kernel/src/preempt.rs: the preemption table and the stub of the LAPIC timer vector.
pub mod Frame
pub mod Bitmap
pub mod Table
pub mod Stub
mod Tests
