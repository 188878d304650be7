-- ===== src/Hardware.antt =====
-- The drivers of kernel/hardware.
pub mod Pit
pub mod Pio
