-- ===== src/Files.antt =====
-- src/file_io.h and src/file_io.c: files split into parts and merged, parts cut into packets, and packets
-- saved to files.
pub mod Stream
pub mod Ops
pub mod Overwrite
pub mod Saving
pub mod Chunks
pub mod Reading
pub mod Flags
pub mod Transfer
pub mod AnyOrder
pub mod Creating
pub mod Disk
pub mod Again
pub mod Parts
pub mod Splitting
pub mod Releasing
mod Tests
