-- ===== src/Fs.antt =====
-- src/fs: how files are opened, sliced, written within a maximum, and mapped.
pub mod Shared
pub mod Util
pub mod Extension
pub mod Bounded
pub mod Mmap
pub mod Overflow
mod Tests
