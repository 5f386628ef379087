-- ===== src/Task.antt =====
-- kernel/src/task.rs: the task, its stack, the switch to it, and the two schedulers.
pub mod Switch
pub mod Stack
pub mod Spawn
pub mod Run
pub mod Ledger
pub mod RoundRobin
pub mod Cfs
mod Tests
mod SchedTests
mod Workers
