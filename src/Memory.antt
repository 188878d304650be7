-- ===== src/Memory.antt =====
-- The memory components of kernel/memory.
pub mod Physical
pub mod Gdt
pub mod Bytes
pub mod Heap
pub mod Paging
