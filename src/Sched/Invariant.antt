-- ===== src/Sched/Invariant.antt =====
-- The scheduler's invariant, for the globals of sthread_lib/sthread_user.c: every thread stands in
-- one place, the runqueues are filed by priority, and the control blocks are in range. The steps
-- that the operations are made of keep it.
pub mod Steps
pub mod Ranges
pub mod Loops
pub mod Ops
pub mod Creation
pub mod Joining
pub mod Sync
pub mod Monitors
use sthreads.Prelude.{ℕ, ◌+◌, ◌<◌, ◌≤◌, ◌≡◌, arith, length, one_if, count, pos_part}
use sthreads.Sched.Thread.{Thread}
use sthreads.Sched.State.{Sched}
use sthreads.Sched.Runqueue.Counting.{rq_count}
use sthreads.Sched.Runqueue.Filing.{IsFiled}

-- What a control block holds.
pub record InRange (t : Thread) : Type 0 where
  pub priority_in : t.priority ≤ 14
  pub base_in : t.base_priority ≤ 14
  pub nice_in : t.nice ≤ 10
  pub quantum_in : pos_part t.quantum ≤ 9

-- How often a thread stands in the scheduler's own queues. `blocked_list` only serves the dump.
abbrev pub queued : ℕ → Sched → ℕ
queued p s =
    rq_count p s.active_rq
    + rq_count p s.expired_rq
    + count p s.sleep_thr_list
    + count p s.join_thr_list
    + count p s.zombie_thr_list
    + count p s.dead_thr_list

-- `total` is the population, and `elsewhere` counts what stands outside the scheduler's queues:
-- the running thread, and those in the queues of mutexes and monitors.
pub record Inv (total elsewhere : ℕ → ℕ) (s : Sched) : Type 0 where
  pub placed : (p : ℕ) → queued p s + elsewhere p ≡ total p
  pub once : (p : ℕ) → total p ≤ 1
  pub in_range : (p : ℕ) → 0 < total p → InRange (s.thr p)
  pub active_size : length s.active_rq ≡ 15
  pub expired_size : length s.expired_rq ≡ 15
  pub active_filed : IsFiled s.thr 0 s.active_rq
  pub expired_filed : IsFiled s.thr 0 s.expired_rq

-- The invariant between two operations, where `parked` counts the threads in the queues of mutexes
-- and monitors.
abbrev pub Valid : (ℕ → ℕ) → (ℕ → ℕ) → Sched → Type 0
Valid total parked s = Inv total (λ p. one_if p s.active_thr + parked p) s
