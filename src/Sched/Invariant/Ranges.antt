-- ===== src/Sched/Invariant/Ranges.antt =====
-- The control blocks stay in range under the computations of sthread_lib/sthread_user.c.
use sthreads.Prelude.{ℕ, ◌≤◌, ℤ, pos, negsuc, pos_part, arith, ◌+ℤ◌, ◌-ℤ◌}
use sthreads.Sched.Thread.{Thread, clamp, recalcular, next_priority, next_quantum}
use sthreads.Sched.Ops.{new_thread}
use sthreads.Sched.Invariant.{InRange}

pub clamp_bounds : (lo hi : ℕ) (x : ℤ) → lo ≤ hi → (lo ≤ clamp lo hi x) × (clamp lo hi x ≤ hi)
clamp_bounds lo hi (pos n) h = ground arith
clamp_bounds lo hi (negsuc n) h = ground arith

pub next_quantum_bound : (q : ℤ) → pos_part q ≤ 9 → pos_part (next_quantum q) ≤ 9
unfolding next_quantum
next_quantum_bound (pos n) h = ground arith
next_quantum_bound (negsuc n) h = ground arith

pub next_priority_bounds :
    (t : Thread) (q : ℤ) (n : ℕ) → (5 ≤ next_priority t q n) × (next_priority t q n ≤ 14)
unfolding next_priority
next_priority_bounds t q n = clamp_bounds 5 14 (pos t.base_priority -ℤ q +ℤ pos n) (omega arith)

pub recalcular-InRange : (t : Thread) → InRange t → InRange (recalcular t)
unfolding recalcular
recalcular-InRange t r =
    ground (arith, next_quantum_bound t.quantum, next_priority_bounds t t.quantum t.nice)

pub new_thread-InRange :
    (routine arg tid : ℕ) (priority : ℤ)
    → InRange (new_thread routine arg (clamp 0 14 priority) tid)
new_thread-InRange routine arg tid priority =
    ground (arith, (clamp_bounds 0 14 priority (omega arith)).1)
