-- ===== src/Interrupt.antt =====
-- The interrupt side of the kernel, kernel/interrupt.
pub mod Idt
pub mod Syscall
pub mod Break
pub mod Descriptors
pub mod System
pub mod Execve
pub mod Dispatch
