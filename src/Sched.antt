-- ===== src/Sched.antt =====
-- sthread_lib/sthread_user.c: the user-level threads, their scheduler, mutexes and monitors.
pub mod ThreadQueue
pub mod Thread
pub mod Runqueue
pub mod State
pub mod Ops
pub mod Join
pub mod Mutex
pub mod Monitor
pub mod Invariant
pub mod Choosing
pub mod History
mod Tests
pub mod Epoch
pub mod ExitValue
pub mod Exclusion
