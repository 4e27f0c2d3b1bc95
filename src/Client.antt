-- ===== src/Client.antt =====
-- snfs_lib: the client's side of SNFS.
pub mod Interface
pub mod Linked
pub mod Remote
pub mod Services
pub mod Paths
pub mod OpenFiles
pub mod Directories
pub mod FileQueue
pub mod Tests
