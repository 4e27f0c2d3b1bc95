-- ===== src/Lib.antt =====
-- The sthreads package: a user-level thread library (sthread_lib) and the network file system
-- SNFS that is built on it (snfs_server, snfs_lib).
--
-- The scheduler of sthread_lib/sthread_user.c is modelled in Sched and its children. Thread is
-- the control block with recalcular, Runqueue the array of queues, State the globals as one
-- record with the switch to the next thread, Ops the calls create, nice, exit, dispatcher (the
-- tick), yield and sleep, Join the call join, Mutex and Monitor the calls of those names with the
-- spin lock of sthread_time_slice.c. A control block has an index, `thr` maps indices to control
-- blocks, and a pointer to a thread is its index. An operation is a function from the state to a
-- `Run`: it is done with a state, it exits the process, it uses a NULL thread, or it spins. A
-- call that blocks ends where it gives the processor away, and a further function, where the
-- source has one, is the rest of it once its thread runs again. Invariant and its children state
-- that each thread stands in one place and prove it for every operation; History runs sequences
-- of operations; Choosing, Epoch, Exclusion and ExitValue are about the choice of the thread, the
-- priorities, the mutex and the value of an exit. The ticks of a sleep are computed in a long of
-- 32 bits; the clock itself is a number, taken to stay below the 2^31 ticks of the source's long.
-- Runqueues have 15 levels and threads 5 ticks, as in the source, and the state has any number of
-- threads.
--
-- Block is the disk of snfs_server/block.c: one array of bytes, with the multiplication of
-- `unsigned` numbers written out. Cache holds what the three caches of snfs_server/fs.c have in
-- common: the slots, the search and the rule for the victim; its children state what a cache
-- shows and when a slot may be written. Fs has the structures of fs.c (State), the block cache
-- over the disk (BlockCache, with a proof that it is transparent), the inode cache over the table
-- of inodes (InodeCache), the directory cache over the block cache (DirCache), the bitmaps
-- (Bitmap), the metadata with the layout of an inode in bytes, fs_new and fs_format (Metadata),
-- and fs_get_attrs and fs_read (Files). The time is an argument of each operation that asks for
-- it. The clock of the stamps is an unsigned long, which has 32 bits in every build (-m32), and
-- wraps around at 2^32; a theorem on a transfer asks that it has a step to go, and says that one
-- step fewer is left. `none` stands for the slot -1, which the theorems exclude.
--
-- The children of Fs carry the blocks up to files: Files.Contents is what a file shows through
-- the caches, Files.Calls and Writing.Calls state fs_read and fs_write on it, Writing.Allocating
-- is about the blocks that a file is given, Metadata.Persisting is about what a restart finds on
-- the disk, and Writing.Durable puts these together for fs_write. The array of the bitmap has
-- 4096 bits and the disk of the server 16384 blocks: past the array, where the source goes on to
-- the structure's next fields, the model reads clear bits and loses a change, and the theorems on
-- a write ask for a bit for each block, or for clear bits in the array for what the write may
-- allocate (Bitmap.Clear). Calls on a file ask for 31 steps of the clock, since a file has at
-- most ten blocks.
--
-- Directory has the pages of a directory, the search in them and fs_lookup, Writing is fs_write,
-- and Naming fs_create, fs_mkdir, fs_readdir and fs_copy. A text is the list of its bytes without
-- the NUL. What stands in a local array or variable before it is written is an argument (`junk`,
-- `unset`).
--
-- Server has the readers-writers lock of snfs_server/server.c as a step relation on the phases of
-- any number of threads, where a step is what a thread does inside the monitor between an enter
-- or a wake-up and the next wait or exit, and the ring of requests between the producer and the
-- consumers. Protocol has the messages of include/snfs_proto.h, and Handlers the handlers of
-- snfs_server/snfs.c over Fs, with the table of services that says which of them runs and under
-- which lock. Serving puts the ring and the handlers together: a round of a consumer, taken as
-- one step, and one of the producer.
--
-- Client is snfs_lib. Interface is the SNFS API as a record of calls. Remote is remote_call of
-- snfs_api.c: what the servers send is a list of messages, and a call that waits when it ends is
-- a `waits`; Agreement and Rotation are about the calls to all servers and to one. Services has
-- the eight calls of snfs_api.c on it. Paths, OpenFiles and Directories are myfs.c, over any API;
-- the children of OpenFiles say what the servers are taken to keep (Serving), what my_read and
-- my_write then do, and that the count of the open files fits their list (Counting). Linked ties
-- the calls of snfs_api.c to a server that keeps one file, as a case of what is asked of the
-- servers. The offsets of a descriptor are int, given by the patterns of their 32 bits. The loops
-- of my_read and my_write run on fuel, one for each message, and a unit for each 1024 bytes is
-- enough.
--
-- System puts a client and the server together: System.Reading follows a read from snfs_read of
-- snfs_api.c through the ring, the handler and the file system, and back.
--
-- Cells is memory with linked cells, where an access through NULL or to a freed cell is a fault.
-- Sched.ThreadQueue is sthread_lib/queue.c on it, with the cell that is kept for reuse, and
-- Client.FileQueue is snfs_lib/queue.c, whose loops run on fuel for each cell; their children
-- relate them to the lists that Sched.Runqueue and Client.OpenFiles work on.
--
-- Prelude holds the shared names, tests, lists and integers; the modules named Tests apply the
-- theorems to concrete states. The other loops are recursion on a list or on the number of slots,
-- bits, entries or blocks that the source's loop visits.
--
-- Not modelled: the machine contexts and the assembly switch, signals and timers, sockets, the
-- printing functions, the wrapper of the POSIX threads, the choice between the two thread
-- libraries, the simulated delays, and the files that block_load and block_store read and write,
-- since they are calls of the system or have no state.
pub mod Block
pub mod Cache
pub mod Cells
pub mod Client
pub mod Fs
pub mod Prelude
pub mod Sched
pub mod Server
pub mod System
