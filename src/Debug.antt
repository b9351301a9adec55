-- ===== src/Debug.antt =====
-- debug.c: the files below the debug file system.
pub mod Bmps
pub mod Dump
pub mod Files
mod Tests
