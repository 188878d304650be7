-- ===== src/Multitasking.antt =====
-- The components of kernel/multitasking.
pub mod Process
pub mod Scheduler
pub mod Elf
