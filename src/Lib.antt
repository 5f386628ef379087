-- ===== src/Lib.antt =====
-- RustyCore, a small x86-64 kernel in Rust: its frame allocators, its preemption table and timer
-- stub, its tasks and schedulers, its interrupt handlers, and its boot up to the last line.
--
-- The kernel's parts and how they interact. The frame allocators (kernel/src/memory/) hand out 4 KiB
-- frames of the bootloader's memory map. A task (kernel/src/task.rs) has a stack in the heap, a
-- context for the cooperative switch, and a slot of the preemption table (kernel/src/preempt.rs).
-- The driver calls a scheduler, which switches to a task's stack; the trampoline there runs one step
-- and switches back. Meanwhile the timer of the local APIC (kernel/src/apic.rs) may interrupt: its
-- stub stores the interrupted state in the current slot of the table and resumes the same task. The
-- scheduler checks the stored frame after each turn. The boot (kernel/src/main.rs) maps the heap and
-- the window of the APIC, calibrates the APIC's timer against the PIT, lets both clocks run, makes
-- the APIC the master when both are alive, and then drives four demo tasks until each has had its
-- share.
--
-- Where each part is modelled:
--   Prelude: words, lists, outcomes, the bit operations and the vectors that the parts share.
--   Memory/Regions, Memory/Cursor, Memory/Bump: the memory map, the walk over it, and
--     `BootFrameAllocator` of kernel/src/memory/bump.rs.
--   Memory/Buddy: `BuddyFrameAllocator` of kernel/src/memory/buddy.rs. Measure, Weights, Blocks and
--     Empty are about its free lists, Frames about single calls, Carving, Shares and Activation about
--     `activate`, BumpMode about the mode before it, and Ownership about all histories of calls.
--   Memory/SelfTest: `self_test_reclaim` of kernel/src/memory.rs.
--   Memory/Mapping: `map_heap` and `map_mmio_window` of kernel/src/memory.rs and `init` of
--     kernel/src/memory/heap.rs, with their proofs in Heap and Window; Memory/Bringup: `init` and
--     `self_test` of kernel/src/memory.rs.
--   Preempt/Frame, Preempt/Bitmap, Preempt/Table: `FullFrame`, `SLOT_USED` and the other statics of
--     kernel/src/preempt.rs with the functions that keep them; Slots and Lifecycle are their proofs.
--   Preempt/Stub: `lapic_preempt_stub`, with its proofs in Spill and Resume.
--   Task/Switch: `context_switch` and `init_task_context` of kernel/src/task.rs, with the visits of
--     the driver to a task in Visit; Task/Stack:
--     `TaskStack`; Task/Spawn: `Task` and its constructors; Task/Run: the pointers by slot, the loop
--     body of `task_trampoline_body`, `switch_to_task`, and what both schedulers do around a switch;
--     Run/Jobs and Run/Steps: the jobs that wait in a queue, and what a turn of one does to all;
--     Task/RoundRobin, Task/Cfs, Task/Ledger: the schedulers. RoundRobin/Rota and Cfs/Weighted are
--     the abstract queues that Steps or Charge, Refines and Fair relate them to.
--   Apic: kernel/src/apic.rs, with its proofs in Rate and Masks.
--   Irq: the handlers and the table of kernel/src/idt.rs; Irq/History: their proofs over any order of
--     arrivals; Irq/SelfTest: kernel/src/syscall.rs; Irq/Controllers: kernel/src/interrupts.rs and
--     kernel/src/timer.rs.
--   Serial: kernel/src/serial.rs, with its proofs in Sent.
--   Segments: kernel/src/gdt.rs.
--   Boot: `kernel_main` and `panic` of kernel/src/main.rs: Start is the calls up to the soak, Soak
--     and Watch are its two loops over the clocks, Promotion what stands between them, Driver the loop
--     over the scheduler and the check of the ledger, Demo the four tasks, Panic the handler and the
--     block of checks before the demo.
--   Config: `parse_size_bytes` of kernel/build.rs, with its proofs in Sizes; Config/Text: the calls on
--     text; Config/Reader: `main` of kernel/build.rs, with its lemmas in Onward, Noted,
--     Entries (the entries of the file, apart from the reader) and Choices;
--     Config/Qemu: `qemu_cfg` of xtask/src/main.rs; Config/Digits: the sizes on their way from the
--     script to the constants of the kernel.
--   Xtask: the commands of xtask/src/main.rs, with their order in Xtask/Order and their profile in
--     Xtask/Profile.
--
-- How the state corresponds to the code. A mutable struct, or the statics of a file, is a record
-- that the operations take and return; an array is a function of the index; an atomic is read and
-- written whole, on the one CPU. A `Box<Task>` is the address of its task in a store, since the slot
-- pointers alias it. A panic, which in the dev profile includes arithmetic overflow, is the outcome
-- `panics`; a loop that has used up its fuel, and a halt, is `running`. Frames are named by their
-- start address.
--
-- Bounds and fuel. Words keep their wrap-around or their overflow check. The walk over the map has a
-- round for each region and one more, the carving a round for each frame below the end and two more,
-- and the recursion of `take_block` one call more than there are orders; the theorems that say that
-- a call returns show that these are enough. The wait of the calibration, the soak and the watch
-- have the guards of the source, and the driver stops within 10301 passes by its own. The polls of
-- the serial port and the waits for a tick, which have no bound in the source, take theirs as an
-- argument. The theorems on the whole life of the buddy allocator ask for disjoint usable regions
-- below 2^52, which is what the bootloader's map and `PhysAddr` guarantee.
--
-- What is not code of the repository is an argument: the memory map, the address of an allocation
-- and of the trampoline, the answers of the PIT and of the APIC's registers, and `run_step`, what
-- the closures of the tasks do together with the interrupts that arrive meanwhile. So are the counts
-- that the clocks show at each load, the state of the serial line, and the page tables and the
-- allocator of the mappings, with what the x86_64 crate documents of them as hypotheses. The stack
-- of the stub does not meet the statics.
--
-- Not modelled: the lines that are printed, except for the counts in them; the formatting, the heap
-- allocator and the page tables, which are other crates'. The interrupts that arrive before the two
-- system calls show only in the counts that the calibration loads. The changes of case in the build
-- script are those of ASCII. At the level of the schedulers the context saved by a switch is left
-- out; Task/Switch is about it.
pub mod Config
pub mod Prelude
pub mod Memory
pub mod Preempt
pub mod Task
pub mod Apic
pub mod Irq
pub mod Serial
pub mod Segments
pub mod Boot
pub mod Xtask
