-- ===== src/Filesystem.antt =====
-- The file system, kernel/filesystem.
pub mod Fat32
