-- ===== src/Fs.antt =====
-- snfs_server/fs.c: the file system on a disk of blocks, with its three caches.
pub mod State
pub mod BlockCache
pub mod Bitmap
pub mod DirCache
pub mod Directory
pub mod InodeCache
pub mod Files
pub mod Metadata
pub mod Naming
pub mod Writing
mod Tests
