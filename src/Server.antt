-- ===== src/Server.antt =====
-- snfs_server/server.c and snfs.c: the threads of the server, their lock for readers and writers, the
-- ring of requests between them, and the handlers.
pub mod Handlers
pub mod Protocol
pub mod Ring
pub mod RwLock
pub mod Serving
mod Tests
